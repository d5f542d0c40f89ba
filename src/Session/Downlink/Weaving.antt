-- ===== src/Session/Downlink/Weaving.antt =====
-- What the charger is handed while the forwarding loop runs (src/session.rs).
use ocpp_proxy.Base.{
  String, List, [], ◌∷◌, ◌++◌, append-nil, append_assoc, ◌≡◌, refl, ap, sym, ◌∙◌, inl, inr,
}
use ocpp_proxy.Config.Charging.{ChargingConfig}
use ocpp_proxy.Session.Wire.{Wire, Libraries, Moment}
use ocpp_proxy.Session.Loop.{
  Session, running, charger_gone, upstream_lost, shutdown, Event, step, forward_loop,
}
use ocpp_proxy.Session.Conservation.{LoopOutcome-cases}
use ocpp_proxy.Session.Downlink.{Woven-append, Handed, untouched}
use ocpp_proxy.Session.Downlink.Steps.{sent_by, step-Handed}

module _ {W : Type 0} (wire : Wire W) (lib : Libraries) (id : String)
    (charging : ChargingConfig) where
  open wire use {to_charger}

  abbrev pub HandedHere : Type 0 → List String → W → W → Type 0
  HandedHere Gone ts w w' = Handed wire lib id charging Gone ts w w'

  pub weaken :
      (G G' : Type 0) (ts : List String) (w w' : W)
      → (G → G')
      → HandedHere G ts w w'
      → HandedHere G' ts w w'
  weaken G G' ts w w' f (inl h) = inl h
  weaken G G' ts w w' f (inr (g, h)) = inr (f g, h)

  -- after a part that did not end the session
  pub and_then :
      (G G' : Type 0) (ts rest : List String) (w w' w'' : W)
      → (¬ G)
      → HandedHere G ts w w'
      → HandedHere G' rest w' w''
      → HandedHere G' (ts ++ rest) w w''
  and_then G G' ts rest w w' w'' on (inr (g, h)) k = absurd (on g)
  and_then G G' ts rest w w' w'' on (inl (hs, woven, handed)) (inl (hs', woven', handed')) = inl (
    hs ++ hs',
    Woven-append wire lib id charging ts hs rest hs' woven woven',
    handed' ∙ ap (λ g. g ++ hs') handed ∙ append_assoc (to_charger w) hs hs',
  )
  and_then G G' ts rest w w' w'' on (inl (hs, woven, handed))
        (inr (gone, (t, before, hs', all, woven', handed'))) =
      inr (
        gone,
        (
          t,
          ts ++ before,
          hs ++ hs',
          ap (λ g. ts ++ g) all ∙ sym (append_assoc ts before (t ∷ [])),
          Woven-append wire lib id charging ts hs before hs' woven woven',
          handed' ∙ ap (λ g. g ++ hs') handed ∙ append_assoc (to_charger w) hs hs',
        ),
      )

  -- the texts of the Central System that the loop takes
  abbrev pub sent_by_loop : List (Moment × Event) → Session → W → List String
  sent_by_loop [] s w = []
  sent_by_loop ((at, e) ∷ es) s w =
      let (o, s', w') = step wire lib id charging at e s w in
      let rest = sent_by_loop es s' w' in
      sent_by e
      ++ elim o [ running ↦ rest | charger_gone ↦ [] | upstream_lost ↦ [] | shutdown ↦ [] ]

  pub forward_loop-Handed :
      (es : List (Moment × Event)) (s : Session) (w : W)
      → let r = forward_loop wire lib id charging es s w in
        HandedHere (r.0 ≡ charger_gone) (sent_by_loop es s w) w r.2
  unfolding forward_loop
  forward_loop-Handed [] s w = untouched wire lib id charging _ w w refl
  forward_loop-Handed ((at, e) ∷ es) s w =
      let r = step wire lib id charging at e s w in
      let one = step-Handed wire lib id charging at e s w in
      elim (LoopOutcome-cases r.0) [
        | inl on ↦
            rw (on, forward_loop, sent_by_loop)
              (and_then (r.0 ≡ charger_gone) _ (sent_by e) _ w r.2 _ (λ g. absurd (cc)) one
                (forward_loop-Handed es r.1 r.2))
        | inr (inl gone) ↦
            rw (gone, forward_loop, sent_by_loop, append-nil (sent_by e))
              (weaken (r.0 ≡ charger_gone) _ (sent_by e) w r.2 (λ g. refl) one)
        | inr (inr (inl gone)) ↦
            rw (gone, forward_loop, sent_by_loop, append-nil (sent_by e))
              (weaken (r.0 ≡ charger_gone) _ (sent_by e) w r.2 (λ g. absurd (cc)) one)
        | inr (inr (inr gone)) ↦
            rw (gone, forward_loop, sent_by_loop, append-nil (sent_by e))
              (weaken (r.0 ≡ charger_gone) _ (sent_by e) w r.2 (λ g. absurd (cc)) one)
      ]
