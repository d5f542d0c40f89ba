-- ===== src/Upstream/Failing.antt =====
-- The errors of a connection to the Central System (src/upstream.rs).
use ocpp_proxy.Base.{
  err-inj, ℕ, String, Option, none, some, ◌≡◌, refl, sym, ◌∙◌, inl, inr, Result, ok, err,
  Result-cases, Option-cases,
}
use ocpp_proxy.Errors.{ProxyError}
use ocpp_proxy.Errors
use ocpp_proxy.Upstream.{
  Urls, Addresses, Network, WebSocketClient, opened_by, connect, connect_bound, connect_upstream,
}
use ocpp_proxy.Upstream.Dialing.{connect_bound-err}

module _ {Url Ip Addr Socket Stream Request Ws W : Type 0} (urls : Urls Url)
    (addresses : Addresses Ip Addr) (net : Network Ip Addr Socket Stream W)
    (client : WebSocketClient Url Stream Request Ws W) where
  abbrev pub OfUpstream : ProxyError → Type 0
  OfUpstream e = (d : String) × (e ≡ Errors.connection_upstream d)

  opened_by-err :
      (r : Result String Ws × W) (e : ProxyError)
      → (opened_by urls addresses net client r).0 ≡ err e
      → OfUpstream e
  opened_by-err (ok s, w) e h = absurd (cc)
  opened_by-err (err m, w) e h = (_, err-inj e _ _ h refl)

  connect-err :
      (url : Url) (bind : Option Ip) (request : Request) (w : W) (e : ProxyError)
      → (connect urls addresses net client url bind request w).0 ≡ err e
      → OfUpstream e
  unfolding connect
  connect-err url none request w e h = opened_by-err (client.connect_async request w) e h
  connect-err url (some bind) request w e h =
      let (dialed, w') = connect_bound urls addresses net url bind w in
      elim (Result-cases dialed) [
        | inl (stream, d) ↦
            opened_by-err (client.client_async request stream w') e (rw (d, connect) at h)
        | inr (x, d) ↦
            let same = err-inj x e _ refl (rw (d, connect) at h) in
            let (m, named) = connect_bound-err urls addresses net url bind w x d in
            (m, sym same ∙ named)
      ]

  -- Whatever goes wrong when a session connects to the Central System, the URL, the header, the resolver, the
  -- sockets, the handshake or the time limit, the error is one of the upstream connection.
  pub connect_upstream-err :
      (url : Url) (subprotocol : String) (bind : Option Ip) (limit : ℕ) (w : W) (e : ProxyError)
      → (connect_upstream urls addresses net client url subprotocol bind limit w).0 ≡ err e
      → OfUpstream e
  unfolding connect_upstream
  connect_upstream-err url subprotocol bind limit w e h =
      elim (Result-cases (client.into_client_request url)) [
        | inr (m, f) ↦ (_, err-inj e _ _ (rw (f, connect_upstream) at h) refl)
        | inl (request, f) ↦ elim (Result-cases (client.insert_subprotocol subprotocol request)) [
          | inr (m, g) ↦ (_, err-inj e _ _ (rw (f, g, connect_upstream) at h) refl)
          | inl (ready, g) ↦
              let run = connect urls addresses net client url bind ready in
              elim (Option-cases (client.timeout limit run w).0) [
                | inl late ↦ (_, err-inj e _ _ (rw (f, g, late, connect_upstream) at h) refl)
                | inr (r, done) ↦ connect-err url bind ready w e (
                    client.timeout-some limit run w r done
                    ∙ (rw (f, g, done, connect_upstream) at h))
              ]
        ]
      ]
