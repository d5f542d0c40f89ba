-- ===== src/Upstream/Dialing.antt =====
-- Which addresses of the Central System are tried, and in which order (src/upstream.rs).
use ocpp_proxy.Base.{
  err-inj, String, Bool, true, false, Option, none, some, List, [], ◌∷◌, ◌++◌, append-nil,
  append_assoc, ◌≡◌, ◌≢◌, refl, ap, sym, ◌∙◌, ◌⊎◌, inl, inr, Result, ok, err, All, Result-cases,
  Option-cases, Bool-cases, unwrap_or,
}
use ocpp_proxy.Errors.{ProxyError}
use ocpp_proxy.Errors
use ocpp_proxy.Upstream.{
  Urls, Addresses, Network, same_family, dial, no_stream, new_socket, candidates, connect_bound,
}

module _ {Ip Addr Socket Stream W : Type 0} (addresses : Addresses Ip Addr)
    (net : Network Ip Addr Socket Stream W) (host : String) (bind : Ip) where
  open net use {tried}

  -- A connection to the address was asked for and failed.
  abbrev pub Refused : Addr → Type 0
  Refused a = (socket : Socket) × (w : W) × (e : String) × ((net.connect socket a w).0 ≡ err e)

  -- What the loop over `addrs` came to. `reached`: the last address tried gave the stream, and those before it
  -- failed; `exhausted`: all were tried and failed; `halted`: those tried failed, and then no socket could be
  -- made, or it could not be bound to the local address.
  pub data Outcome (addrs : List Addr) (w : W) (r : Result ProxyError Stream × W) : Type 0 where
    reached :
        (before after : List Addr) (a : Addr) (socket : Socket) (w' : W) (stream : Stream)
        → addrs ≡ before ++ a ∷ after
        → tried r.1 ≡ tried w ++ (before ++ a ∷ [])
        → All Refused before
        → (net.connect socket a w').0 ≡ ok stream
        → r.0 ≡ ok stream
        → Outcome addrs w r
    exhausted :
        (last_err : Option String)
        → tried r.1 ≡ tried w ++ addrs
        → All Refused addrs
        → r.0 ≡ err (no_stream addresses net host bind last_err)
        → Outcome addrs w r
    halted :
        (before after : List Addr) (d e : String) (w' : W)
        → addrs ≡ before ++ after
        → tried r.1 ≡ tried w ++ before
        → All Refused before
        → ((new_socket addresses net host bind w').0 ≡ err e)
          ⊎ ((socket : Socket) × ((net.bind socket (addresses.with_port bind 0) w').0 ≡ err e))
        → r.0 ≡ err (Errors.connection_upstream d)
        → Outcome addrs w r

  one_more :
      (addr : Addr) (addrs : List Addr) (w w' : W) (r : Result ProxyError Stream × W)
      → tried w' ≡ tried w ++ addr ∷ []
      → Refused addr
      → Outcome addrs w' r
      → Outcome (addr ∷ addrs) w r
  one_more addr addrs w w' r t refused
        (reached before after a s u stream split all fails made got) =
      reached (addr ∷ before) after a s u stream (ap (λ x. addr ∷ x) split)
        (all ∙ ap (λ x. x ++ (before ++ a ∷ [])) t ∙ append_assoc (tried w) (addr ∷ []) _)
        (refused, fails) made got
  one_more addr addrs w w' r t refused (exhausted last_err all fails failed) =
      exhausted last_err (all ∙ ap (λ x. x ++ addrs) t ∙ append_assoc (tried w) (addr ∷ []) addrs)
        (refused, fails) failed
  one_more addr addrs w w' r t refused (halted before after d e u split all fails why failed) =
      halted (addr ∷ before) after d e u (ap (λ x. addr ∷ x) split)
        (all ∙ ap (λ x. x ++ before) t ∙ append_assoc (tried w) (addr ∷ []) before) (refused, fails)
        why failed

  new_socket-tried : (w : W) → tried (new_socket addresses net host bind w).1 ≡ tried w
  new_socket-tried w = elim (Bool-cases (addresses.is_ipv4 bind)) [
    | inl e ↦ rw e (net.v4-tried w)
    | inr e ↦ rw e (net.v6-tried w)
  ]

  dial-Outcome :
      (addrs : List Addr) (last_err : Option String) (w : W)
      → Outcome addrs w (dial addresses net host bind addrs last_err w)
  unfolding dial
  dial-Outcome [] last_err w = exhausted last_err (sym (append-nil (tried w))) tt refl
  dial-Outcome (addr ∷ addrs) last_err w =
      let (made, w1) = new_socket addresses net host bind w in
      let none_tried = new_socket-tried w in
      elim (Result-cases made) [
        | inr (e, m) ↦
            rw (m, dial)
              (halted [] (addr ∷ addrs) _ e w refl (none_tried ∙ sym (append-nil (tried w))) tt
                (inl m) refl)
        | inl (socket, m) ↦
            let (bound, w2) = net.bind socket (addresses.with_port bind 0) w1 in
            let still_none = net.bind-tried socket (addresses.with_port bind 0) w1 ∙ none_tried in
            elim (Result-cases bound) [
              | inr (e, b) ↦
                  rw (m, b, dial)
                    (halted [] (addr ∷ addrs) _ e w1 refl (still_none ∙ sym (append-nil (tried w)))
                      tt (inr (socket, b)) refl)
              | inl (u, b) ↦
                  let (connected, w3) = net.connect socket addr w2 in
                  let one_tried =
                    net.connect-tried socket addr w2 ∙ ap (λ x. x ++ addr ∷ []) still_none in
                  elim (Result-cases connected) [
                    | inl (stream, c) ↦
                        rw (m, b, c, dial)
                          (reached [] addrs addr socket w2 stream refl one_tried tt c refl)
                    | inr (e, c) ↦
                        rw (m, b, c, dial)
                          (one_more addr addrs w w3 _ one_tried (socket, w2, e, c)
                            (dial-Outcome addrs (some e) w3))
                  ]
            ]
      ]

  started_at :
      (addrs : List Addr) (w w' : W) (r : Result ProxyError Stream × W)
      → tried w' ≡ tried w
      → Outcome addrs w' r
      → Outcome addrs w r
  started_at addrs w w' r t (reached before after a s u stream split all fails made got) =
      reached before after a s u stream split (all ∙ ap (λ x. x ++ (before ++ a ∷ [])) t) fails made
        got
  started_at addrs w w' r t (exhausted last_err all fails failed) =
      exhausted last_err (all ∙ ap (λ x. x ++ addrs) t) fails failed
  started_at addrs w w' r t (halted before after d e u split all fails why failed) =
      halted before after d e u split (all ∙ ap (λ x. x ++ before) t) fails why failed

  abbrev pub OfItsFamily : Addr → Type 0
  OfItsFamily a = addresses.addr_is_ipv4 a ≡ addresses.is_ipv4 bind

  same_family-eq : (a b : Bool) → same_family a b ≡ true → a ≡ b
  same_family-eq true true h = refl
  same_family-eq true false h = absurd (cc)
  same_family-eq false true h = absurd (cc)
  same_family-eq false false h = refl

  -- The second list is the first one, in its order, less the addresses of the other family.
  pub data Chosen : List Addr → List Addr → Type 0 where
    none_chosen : Chosen [] []
    chosen :
        (a : Addr) (addrs cs : List Addr)
        → OfItsFamily a
        → Chosen addrs cs
        → Chosen (a ∷ addrs) (a ∷ cs)
    passed_over :
        (a : Addr) (addrs cs : List Addr)
        → ¬ OfItsFamily a
        → Chosen addrs cs
        → Chosen (a ∷ addrs) cs

  same_family-neq : (a b : Bool) → same_family a b ≡ false → a ≢ b
  same_family-neq true true h = absurd (cc)
  same_family-neq true false h = λ e. absurd (cc)
  same_family-neq false true h = λ e. absurd (cc)
  same_family-neq false false h = absurd (cc)

  candidates-Chosen : (addrs : List Addr) → Chosen addrs (candidates addresses net host bind addrs)
  candidates-Chosen [] = none_chosen
  candidates-Chosen (a ∷ addrs) =
      let rest = candidates-Chosen addrs in
      elim (Bool-cases (same_family (addresses.addr_is_ipv4 a) (addresses.is_ipv4 bind))) [
        | inl e ↦ rw e (
            chosen a addrs _ (same_family-eq (addresses.addr_is_ipv4 a) (addresses.is_ipv4 bind) e)
              rest)
        | inr e ↦ rw e (
            passed_over a addrs _
              (same_family-neq (addresses.addr_is_ipv4 a) (addresses.is_ipv4 bind) e) rest)
      ]

  Outcome-err :
      (addrs : List Addr) (w : W) (r : Result ProxyError Stream × W) (e : ProxyError)
      → Outcome addrs w r
      → r.0 ≡ err e
      → (d : String) × (e ≡ Errors.connection_upstream d)
  Outcome-err addrs w r e (reached before after a s u stream split all fails made got) h =
      absurd (cc)
  Outcome-err addrs w r e (exhausted none all fails failed) h = (_, err-inj e _ r.0 h failed)
  Outcome-err addrs w r e (exhausted (some l) all fails failed) h = (_, err-inj e _ r.0 h failed)
  Outcome-err addrs w r e (halted before after d x u split all fails why failed) h =
      (d, err-inj e _ r.0 h failed)

module _ {Url Ip Addr Socket Stream W : Type 0} (urls : Urls Url) (addresses : Addresses Ip Addr)
    (net : Network Ip Addr Socket Stream W) where
  open net use {tried}

  -- Either nothing was tried and the error is one of the upstream connection; or the URL's host was resolved, and of
  -- the addresses found exactly those of the bind address's family are tried, in their order, up to the first that
  -- gives a stream, which is the result; or all of them are tried and fail; or those tried fail, and then the local
  -- socket can not be made or bound. In the last two cases the error is one of the upstream connection.
  pub connect_bound_lem :
      (url : Url) (bind : Ip) (w : W)
      → let r = connect_bound urls addresses net url bind w in
        ((d : String) × (r.0 ≡ err (Errors.connection_upstream d)) × (tried r.1 ≡ tried w))
        ⊎ ((host : String) × (addrs : List Addr) × (urls.host_str url ≡ some host)
            × ((net.lookup_host host (unwrap_or (urls.port_or_known_default url) 80) w).0
                ≡ ok addrs)
            × ((cs : List Addr) × Chosen addresses net host bind addrs cs
                × Outcome addresses net host bind cs w r))
  unfolding connect_bound
  connect_bound_lem url bind w = elim (Option-cases (urls.host_str url)) [
    | inl n ↦ rw (n, connect_bound) (inl (_, refl, refl))
    | inr (host, h) ↦
        let (resolved, w') =
          net.lookup_host host (unwrap_or (urls.port_or_known_default url) 80) w in
        let same = net.lookup-tried host (unwrap_or (urls.port_or_known_default url) 80) w in
        elim (Result-cases resolved) [
          | inr (e, f) ↦ rw (h, f, connect_bound) (inl (_, refl, same))
          | inl (addrs, f) ↦
              let cs = candidates addresses net host bind addrs in
              rw (h, f, connect_bound)
                (inr (
                  host,
                  addrs,
                  refl,
                  f,
                  (
                    cs,
                    candidates-Chosen addresses net host bind addrs,
                    started_at addresses net host bind cs w w' _ same
                        (dial-Outcome addresses net host bind cs none w'),
                  ),
                ))
        ]
  ]

  pub connect_bound-err :
      (url : Url) (bind : Ip) (w : W) (e : ProxyError)
      → (connect_bound urls addresses net url bind w).0 ≡ err e
      → (d : String) × (e ≡ Errors.connection_upstream d)
  connect_bound-err url bind w e h = elim (connect_bound_lem url bind w) [
    | inl (d, failed, none_tried) ↦ (d, err-inj e _ _ h failed)
    | inr (host, addrs, named, found, (cs, same, outcome)) ↦
        Outcome-err addresses net host bind cs w _ e outcome h
  ]
