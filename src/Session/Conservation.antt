-- ===== src/Session/Conservation.antt =====
-- What the Central System is handed while the forwarding loop runs (src/session.rs).
use ocpp_proxy.Base.{
  ℕ, ◌≤◌, String, List, [], ◌∷◌, ◌++◌, append-nil, append_assoc, ◌≡◌, refl, ap, ◌∙◌, ◌⊎◌, inl, inr,
  arith, err, length,
}
use ocpp_proxy.Errors.{ProxyError}
use ocpp_proxy.Models.{parse}
use ocpp_proxy.Config.Charging.{ChargingConfig}
use ocpp_proxy.Forwarder.Flushing.{raws}
use ocpp_proxy.Session.Wire.{Wire, Libraries, Moment}
use ocpp_proxy.Session.Loop.{
  Session, LoopOutcome, running, charger_gone, upstream_lost, shutdown, Event, step, forward_loop,
}
use ocpp_proxy.Session.Accounts.{owed, Accounts, handed, buffered, lost, step-Accounts}

module _ (lib : Libraries) where
  -- The second list is the first one, in its order, less texts that are no frames.
  pub data Kept : List String → List String → Type 0 where
    nothing_owed : Kept [] []
    delivered : (t : String) (ts ks : List String) → Kept ts ks → Kept (t ∷ ts) (t ∷ ks)
    omitted :
        (now : ℕ) (e : ProxyError) (t : String) (ts ks : List String)
        → parse lib.from_str now t ≡ err e
        → Kept ts ks
        → Kept (t ∷ ts) ks

  pub Kept-refl : (ts : List String) → Kept ts ts
  Kept-refl [] = nothing_owed
  Kept-refl (t ∷ ts) = delivered t ts ts (Kept-refl ts)

  pub Kept-append :
      (ts ks ts' ks' : List String) → Kept ts ks → Kept ts' ks' → Kept (ts ++ ts') (ks ++ ks')
  Kept-append _ _ ts' ks' nothing_owed k = k
  Kept-append _ _ ts' ks' (delivered t ts ks h) k = delivered t _ _ (Kept-append ts ks ts' ks' h k)
  Kept-append _ _ ts' ks' (omitted now e t ts ks bad h) k =
      omitted now e t _ _ bad (Kept-append ts ks ts' ks' h k)

pub LoopOutcome-cases :
    (o : LoopOutcome)
    → (o ≡ running) ⊎ ((o ≡ charger_gone) ⊎ ((o ≡ upstream_lost) ⊎ (o ≡ shutdown)))
LoopOutcome-cases running = inl refl
LoopOutcome-cases charger_gone = inr (inl refl)
LoopOutcome-cases upstream_lost = inr (inr (inl refl))
LoopOutcome-cases shutdown = inr (inr (inr refl))

module _ {W : Type 0} (wire : Wire W) (lib : Libraries) (id : String)
    (charging : ChargingConfig) where
  open wire use {to_central}

  -- What was owed was handed over or is buffered, less texts that are no frames.
  abbrev pub Settled : List String → W → LoopOutcome × Session × W → Type 0
  Settled owing w r =
      ((ks : List String) × Kept lib owing ks
        × (to_central r.2 ++ raws r.1.forwarder.upstream_buffer ≡ to_central w ++ ks))
      × (length r.1.forwarder.upstream_buffer ≤ 1)

  -- the texts that the events owe the Central System, as far as the loop takes them
  abbrev pub owed_by_loop : List (Moment × Event) → Session → W → List String
  owed_by_loop [] s w = []
  owed_by_loop ((at, e) ∷ es) s w =
      let (o, s', w') = step wire lib id charging at e s w in
      let rest = owed_by_loop es s' w' in
      owed lib at e s
      ++ elim o [ running ↦ rest | charger_gone ↦ [] | upstream_lost ↦ [] | shutdown ↦ [] ]

  Accounts-Settled :
      (at : Moment) (w : W) (owing : List String) (r : LoopOutcome × Session × W)
      → Accounts wire lib id charging at w owing r
      → Settled owing w r
  Accounts-Settled at w owing r (handed sent empty) = (
    (owing, Kept-refl lib owing, rw empty (append-nil (to_central r.2) ∙ sent)),
    rw empty (omega arith),
  )
  Accounts-Settled at w owing r (buffered frame gone one none_sent kept) =
      ((owing, Kept-refl lib owing, rw (kept, one, none_sent) refl), rw kept (omega arith))
  Accounts-Settled at w owing r (lost raw e gone one bad none_sent empty) = (
    ([], rw one (omitted at.now e raw [] [] bad nothing_owed), rw (empty, none_sent) refl),
    rw empty (omega arith),
  )

  -- a step after which the loop goes on
  running_on :
      (at : Moment) (w : W) (owing : List String) (r : LoopOutcome × Session × W)
      → Accounts wire lib id charging at w owing r
      → r.0 ≡ running
      → (to_central r.2 ≡ to_central w ++ owing) × (r.1.forwarder.upstream_buffer ≡ [])
  running_on at w owing r (handed sent empty) on = (sent, empty)
  running_on at w owing r (buffered frame gone one none_sent kept) on = absurd (cc)
  running_on at w owing r (lost raw e gone one bad none_sent empty) on = absurd (cc)

  then_Settled :
      (w w' : W) (owing rest : List String) (r : LoopOutcome × Session × W)
      → to_central w' ≡ to_central w ++ owing
      → Settled rest w' r
      → Settled (owing ++ rest) w r
  then_Settled w w' owing rest r sent ((ks, kept, all), one) = (
    (
      owing ++ ks,
      Kept-append lib _ _ _ _ (Kept-refl lib owing) kept,
      all ∙ ap (λ g. g ++ ks) sent ∙ append_assoc (to_central w) owing ks,
    ),
    one,
  )

  stopped :
      (owing : List String) (w : W) (r : LoopOutcome × Session × W)
      → Settled owing w r
      → Settled (owing ++ []) w r
  stopped owing w r h = rw (append-nil owing) h

  pub forward_loop-Settled :
      (es : List (Moment × Event)) (s : Session) (w : W)
      → s.forwarder.upstream_buffer ≡ []
      → Settled (owed_by_loop es s w) w (forward_loop wire lib id charging es s w)
  unfolding forward_loop
  forward_loop-Settled [] s w empty = (([], nothing_owed, rw empty refl), rw empty (omega arith))
  forward_loop-Settled ((at, e) ∷ es) s w empty =
      let r = step wire lib id charging at e s w in
      let accounts = step-Accounts wire lib id charging at e s w empty in
      let ended = stopped (owed lib at e s) w r (Accounts-Settled at w _ r accounts) in
      elim (LoopOutcome-cases r.0) [
        | inl on ↦
            let (sent, empty') = running_on at w _ r accounts on in
            rw (on, forward_loop, owed_by_loop)
              (then_Settled w r.2 _ _ (forward_loop wire lib id charging es r.1 r.2) sent
                (forward_loop-Settled es r.1 r.2 empty'))
        | inr (inl gone) ↦ rw (gone, forward_loop, owed_by_loop) ended
        | inr (inr (inl gone)) ↦ rw (gone, forward_loop, owed_by_loop) ended
        | inr (inr (inr gone)) ↦ rw (gone, forward_loop, owed_by_loop) ended
      ]
