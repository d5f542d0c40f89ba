-- ===== src/Session/Downlink/Sessions.antt =====
-- What the charger is handed over a whole session, with all its reconnections (src/session.rs).
use ocpp_proxy.Base.{
  String, false, List, [], ◌∷◌, ◌++◌, append-nil, ◌≡◌, refl, ap, sym, ◌∙◌, inl, inr, if◌then◌else◌,
  Bool-cases, Option-cases,
}
use ocpp_proxy.Models.{connecting}
use ocpp_proxy.Models.Backoff.{Seconds}
use ocpp_proxy.State.{ConnectionStateManager}
use ocpp_proxy.Command.{CommandRequest}
use ocpp_proxy.Session.Wire.{Wire, Libraries, Moment}
use ocpp_proxy.Session.Loop.{charger_gone, forward_loop}
use ocpp_proxy.Session.Reconnect.{
  Link, SessionConfig, Round, refused, opened, enter, on_connect_failed, on_connected, round,
  run_session,
}
use ocpp_proxy.Session.Whole.{start, session}
use ocpp_proxy.Session.Conservation.{LoopOutcome-cases}
use ocpp_proxy.Session.Downlink.{Handed, untouched}
use ocpp_proxy.Session.Downlink.Weaving.{weaken, and_then, sent_by_loop, forward_loop-Handed}
use ocpp_proxy.Session.Downlink.Quiet.{
  enter-charger, failed-charger, connected-charger, lost-charger, teardown-charger,
}

module _ {W : Type 0} (wire : Wire W) (lib : Libraries) (secs : Seconds) (id : String)
    (config : SessionConfig) where
  open wire use {to_charger}

  abbrev Given : Type 0 → List String → W → W → Type 0
  Given Gone ts w w' = Handed wire lib id config.charging Gone ts w w'

  -- what the charger has been handed decides it alone
  moved :
      (G : Type 0) (ts : List String) (w w' u u' : W)
      → to_charger u ≡ to_charger w
      → to_charger u' ≡ to_charger w'
      → Given G ts w w'
      → Given G ts u u'
  moved G ts w w' u u' e e' (inl (hs, k, handed)) =
      inl (hs, k, e' ∙ handed ∙ ap (λ g. g ++ hs) (sym e))
  moved G ts w w' u u' e e' (inr (g, (t, before, hs, all, k, handed))) =
      inr (g, (t, before, hs, all, k, e' ∙ handed ∙ ap (λ g. g ++ hs) (sym e)))

  -- the texts of the Central System that a round takes; its loop runs where the replay succeeds
  abbrev sent_by_round : Round → Link → W → List String
  sent_by_round (refused begun failed wake) l w = []
  sent_by_round (opened begun made events lost wake) l w =
      let (trying, w') = enter wire lib secs id config begun.now connecting l w in
      let (replayed, up, u) = on_connected wire lib secs id config made trying w' in
      if replayed then sent_by_loop wire lib id config.charging events up.session u else []

  -- the texts that the rounds take, as far as the session goes
  abbrev pub sent_by_session : List Round → Link → W → List String
  sent_by_session [] l w = []
  sent_by_session (r ∷ rs) l w =
      let (on, l', w') = round wire lib secs id config r l w in
      let rest = sent_by_session rs l' w' in sent_by_round r l w ++ (if on then rest else [])

  round-Handed :
      (r : Round) (l : Link) (w : W)
      → let (on, l', w') = round wire lib secs id config r l w in
        Given (on ≡ false) (sent_by_round r l w) w w'
  unfolding round
  round-Handed (refused begun failed wake) l w =
      let (trying, w') = enter wire lib secs id config begun.now connecting l w in
      let same =
        failed-charger wire lib secs id config failed trying w'
        ∙ enter-charger wire lib secs id config begun.now connecting l w in
      elim (Option-cases (on_connect_failed wire lib secs id config failed trying w').0) [
        | inl stop ↦ rw (stop, round) (untouched wire lib id config.charging _ w _ same)
        | inr (d, wait) ↦ rw (wait, round) (untouched wire lib id config.charging _ w _ same)
      ]
  round-Handed (opened begun made events lost wake) l w =
      let (trying, w') = enter wire lib secs id config begun.now connecting l w in
      let (replayed, up, u) = on_connected wire lib secs id config made trying w' in
      let same = sym (
        connected-charger wire lib secs id config made trying w'
        ∙ enter-charger wire lib secs id config begun.now connecting l w) in
      let o = forward_loop wire lib id config.charging events up.session u in
      let ts = sent_by_loop wire lib id config.charging events up.session u in
      let after = record up { session = o.1 } in
      let looped = forward_loop-Handed wire lib id config.charging events up.session u in
      elim (Bool-cases replayed) [
        | inr fails ↦
            rw (fails, round, sent_by_round)
              (untouched wire lib id config.charging _ w u (sym same))
        | inl replays ↦ elim (LoopOutcome-cases o.0) [
          | inl on ↦
              rw (replays, on, round, sent_by_round)
                (moved _ ts u o.2 w o.2 same refl (
                  weaken wire lib id config.charging (o.0 ≡ charger_gone) _ ts u o.2
                    (λ g. absurd (cc)) looped))
          | inr (inl gone) ↦
              rw (replays, gone, round, sent_by_round)
                (moved _ ts u o.2 w o.2 same refl (
                  weaken wire lib id config.charging (o.0 ≡ charger_gone) _ ts u o.2 (λ g. refl)
                    looped))
          | inr (inr (inl gone)) ↦
              rw (replays, gone, round, sent_by_round)
                (moved _ ts u o.2 w _ same (lost-charger wire lib secs id config lost after o.2) (
                  weaken wire lib id config.charging (o.0 ≡ charger_gone) _ ts u o.2
                    (λ g. absurd (cc)) looped))
          | inr (inr (inr gone)) ↦
              rw (replays, gone, round, sent_by_round)
                (moved _ ts u o.2 w o.2 same refl (
                  weaken wire lib id config.charging (o.0 ≡ charger_gone) _ ts u o.2 (λ g. refl)
                    looped))
        ]
      ]

  pub run_session-Handed :
      (rs : List Round) (l : Link) (w : W)
      → let r = run_session wire lib secs id config rs l w in
        Given (r.0 ≡ false) (sent_by_session rs l w) w r.2
  unfolding run_session
  run_session-Handed [] l w = untouched wire lib id config.charging _ w w refl
  run_session-Handed (r ∷ rs) l w =
      let (on, l', w') = round wire lib secs id config r l w in
      let ts = sent_by_round r l w in
      let first = round-Handed r l w in
      elim (Bool-cases on) [
        | inl goes ↦
            rw (goes, run_session, sent_by_session)
              (and_then wire lib id config.charging (on ≡ false) _ ts _ w w' _ (λ g. absurd (cc))
                first (run_session-Handed rs l' w'))
        | inr ends ↦
            rw (ends, run_session, sent_by_session, append-nil ts)
              (weaken wire lib id config.charging (on ≡ false) _ ts w w' (λ g. refl) first)
      ]

  -- Over a whole session, its teardown included, the charger is handed the texts of the Central System that its
  -- loops took, verbatim and in their order, with nothing put in but calls that the proxy prepared for a
  -- request. Where the outer loop has ended, the last of these texts may be missing.
  pub session-Handed :
      (rounds : List Round) (at closed : Moment) (unread late : List CommandRequest)
      (manager : ConnectionStateManager) (w : W)
      → let begun = start config id manager in
        let (on, l, w') = run_session wire lib secs id config rounds begun w in
        let (l', ended, v) =
          session wire lib secs id config rounds at closed unread late manager w in
        Handed wire lib id config.charging (on ≡ false) (sent_by_session rounds begun w) w v
  unfolding session
  session-Handed rounds at closed unread late manager w =
      let begun = start config id manager in
      let (on, l, w') = run_session wire lib secs id config rounds begun w in
      moved (on ≡ false) (sent_by_session rounds begun w) w w' w _ refl
        (teardown-charger wire lib secs id config at closed unread late l w')
        (run_session-Handed rounds begun w)
