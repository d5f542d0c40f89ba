-- ===== src/Session/Relay.antt =====
-- What the Central System is handed over a whole session, with all its reconnections (src/session.rs).
use ocpp_proxy.Base.{
  ℕ, leb, ◌≤◌, max, String, List, [], ◌∷◌, ◌++◌, append-nil, append_assoc, ◌≡◌, refl, ap, sym, ◌∙◌,
  inl, inr, arith, if◌then◌else◌, length, Bool-cases, Option-cases,
}
use ocpp_proxy.Models.{OcppFrame, ConnectionState, connecting, reconnecting}
use ocpp_proxy.Models.Backoff.{Seconds}
use ocpp_proxy.Forwarder.Flushing.{raws}
use ocpp_proxy.Session.Wire.{Wire, Libraries, Moment}
use ocpp_proxy.Session.Loop.{Session, LoopOutcome, Event, forward_loop}
use ocpp_proxy.Session.Reconnect.{
  Wake, Link, SessionConfig, Round, refused, opened, enter, on_connect_failed, on_connected,
  elapsed, on_upstream_lost, round, run_session,
}
use ocpp_proxy.Session.Replay.{connected-length, status-central, on_connected_lem}
use ocpp_proxy.Session.Conservation.{
  Kept, nothing_owed, Kept-append, Settled, owed_by_loop, forward_loop-Settled, LoopOutcome-cases,
}

module _ {W : Type 0} (wire : Wire W) (lib : Libraries) (secs : Seconds) (id : String)
    (config : SessionConfig) where
  open wire use {to_central}

  -- the texts that a round owes the Central System; its loop runs where the replay succeeds
  abbrev owed_by_round : Round → Link → W → List String
  owed_by_round (refused begun failed wake) l w = []
  owed_by_round (opened begun made events lost wake) l w =
      let (trying, w') = enter wire lib secs id config begun.now connecting l w in
      let (replayed, up, u) = on_connected wire lib secs id config made trying w' in
      if replayed then owed_by_loop wire lib id config.charging events up.session u else []

  -- the texts that the rounds owe it, as far as the session goes
  abbrev pub owed_by_session : List Round → Link → W → List String
  owed_by_session [] l w = []
  owed_by_session (r ∷ rs) l w =
      let (on, l', w') = round wire lib secs id config r l w in
      let rest = owed_by_session rs l' w' in owed_by_round r l w ++ (if on then rest else [])

  -- What was handed over and is buffered is what was so before, and then what was owed, less texts that
  -- are no frames. The buffer holds no more than it did, or one.
  abbrev pub Relayed : List String → List OcppFrame → W → List OcppFrame → W → Type 0
  Relayed owing before w after w' =
      ((ks : List String) × Kept lib owing ks
        × (to_central w' ++ raws after ≡ (to_central w ++ raws before) ++ ks))
      × (length after ≤ max (length before) 1)

  abbrev pub buffer : Link → List OcppFrame
  buffer l = l.session.forwarder.upstream_buffer

  Relayed-trans :
      (owing rest : List String) (b b' b'' : List OcppFrame) (w w' w'' : W)
      → Relayed owing b w b' w'
      → Relayed rest b' w' b'' w''
      → Relayed (owing ++ rest) b w b'' w''
  Relayed-trans owing rest b b' b'' w w' w'' ((ks, k, e), n) ((ks', k', e'), n') = (
    (ks ++ ks', Kept-append lib _ _ _ _ k k', e' ∙ ap (λ g. g ++ ks') e ∙ append_assoc _ ks ks'),
    omega (arith, n, n'),
  )

  -- what changes neither
  untouched :
      (b b' : List OcppFrame) (w w' : W)
      → to_central w' ≡ to_central w
      → b' ≡ b
      → Relayed [] b w b' w'
  untouched b b' w w' same kept =
      (([], nothing_owed, rw (same, kept) (sym (append-nil _))), rw kept (omega arith))

  entered :
      (now : ℕ) (c : ConnectionState) (l : Link) (w : W)
      → let (l', w') = enter wire lib secs id config now c l w in
        Relayed [] (buffer l) w (buffer l') w'
  unfolding enter
  entered now c l w =
      untouched (buffer l) _ w _ (status-central wire id now c l.session.manager w) refl

  failed-untouched :
      (at : Moment) (l : Link) (w : W)
      → let r = on_connect_failed wire lib secs id config at l w in
        Relayed [] (buffer l) w (buffer r.1) r.2
  unfolding on_connect_failed enter
  failed-untouched at l w =
      elim (Bool-cases (leb config.max_reconnect_window (elapsed at.instant l))) [
        | inl late ↦ rw late (untouched (buffer l) _ w w refl refl)
        | inr early ↦ rw early (
            untouched (buffer l) _ w _
              (status-central wire id at.now reconnecting l.session.manager w) refl)
      ]

  lost-untouched :
      (at : Moment) (l : Link) (w : W)
      → let r = on_upstream_lost wire lib secs id config at l w in
        Relayed [] (buffer l) w (buffer r.1) r.2
  unfolding on_upstream_lost enter ocpp_proxy.Forwarder.discard_downstream_buffer
  lost-untouched at l w =
      untouched (buffer l) _ w _ (status-central wire id at.now reconnecting l.session.manager w)
        refl

  connected-Relayed :
      (at : Moment) (l : Link) (w : W)
      → let r = on_connected wire lib secs id config at l w in
        Relayed [] (buffer l) w (buffer r.1) r.2
  connected-Relayed at l w = (
    ([], nothing_owed, (on_connected_lem wire lib secs id config at l w).0 ∙ sym (append-nil _)),
    omega (arith, connected-length wire lib secs id config at l w),
  )

  settled :
      (owing : List String) (b : List OcppFrame) (w : W) (r : LoopOutcome × Session × W)
      → b ≡ []
      → Settled wire lib id config.charging owing w r
      → Relayed owing b w r.1.forwarder.upstream_buffer r.2
  settled owing b w r empty ((ks, kept, all), one) = (
    (ks, kept, rw empty (all ∙ ap (λ g. g ++ ks) (sym (append-nil (to_central w))))),
    omega (arith, one),
  )

  -- once the replay has succeeded
  opened-Relayed :
      (events : List (Moment × Event)) (lost : Moment) (wake : Wake) (up : Link) (u : W)
      → buffer up ≡ []
      → let r = forward_loop wire lib id config.charging events up.session u in
        let owing = owed_by_loop wire lib id config.charging events up.session u in
        let after = record up { session = r.1 } in
        let v = on_upstream_lost wire lib secs id config lost after r.2 in
        Relayed owing (buffer up) u (buffer after) r.2
        × Relayed owing (buffer up) u (buffer v.1) v.2
  opened-Relayed events lost wake up u empty =
      let r = forward_loop wire lib id config.charging events up.session u in
      let owing = owed_by_loop wire lib id config.charging events up.session u in
      let looped =
        settled owing (buffer up) u r empty
          (forward_loop-Settled wire lib id config.charging events up.session u empty) in
      (
        looped,
        rw (sym (append-nil owing)) (
            Relayed-trans owing [] _ _ _ u _ _ looped
              (lost-untouched lost (record up { session = r.1 }) r.2)),
      )

  round-Relayed :
      (r : Round) (l : Link) (w : W)
      → let (on, l', w') = round wire lib secs id config r l w in
        Relayed (owed_by_round r l w) (buffer l) w (buffer l') w'
  unfolding round
  round-Relayed (refused begun failed wake) l w =
      let (trying, w') = enter wire lib secs id config begun.now connecting l w in
      let both =
        Relayed-trans [] [] _ _ _ w _ _ (entered begun.now connecting l w)
          (failed-untouched failed trying w') in
      elim (Option-cases (on_connect_failed wire lib secs id config failed trying w').0) [
        | inl stop ↦ rw (stop, round) both
        | inr (d, wait) ↦ rw (wait, round) both
      ]
  round-Relayed (opened begun made events lost wake) l w =
      let (trying, w') = enter wire lib secs id config begun.now connecting l w in
      let (replayed, up, u) = on_connected wire lib secs id config made trying w' in
      let begin =
        Relayed-trans [] [] _ _ _ w _ _ (entered begun.now connecting l w)
          (connected-Relayed made trying w') in
      elim (on_connected_lem wire lib secs id config made trying w').1 [
        | inl (replays, empty) ↦
            let (here, beyond) = opened-Relayed events lost wake up u empty in
            let o = forward_loop wire lib id config.charging events up.session u in
            elim (LoopOutcome-cases o.0) [
              | inl on ↦
                  rw (replays, on, round, owed_by_round) (Relayed-trans [] _ _ _ _ w u _ begin here)
              | inr (inl gone) ↦
                  rw (replays, gone, round, owed_by_round)
                    (Relayed-trans [] _ _ _ _ w u _ begin here)
              | inr (inr (inl gone)) ↦
                  rw (replays, gone, round, owed_by_round)
                    (Relayed-trans [] _ _ _ _ w u _ begin beyond)
              | inr (inr (inr gone)) ↦
                  rw (replays, gone, round, owed_by_round)
                    (Relayed-trans [] _ _ _ _ w u _ begin here)
            ]
        | inr (fails, some_left) ↦ rw (fails, owed_by_round, round) begin
      ]

  -- Over a whole session, whatever its sends and its reconnections do: the Central System is owed the
  -- texts of the charger that the forwarding loops take, in their order, less the charger's answers to
  -- the call of the proxy that is in flight then. What it has been handed, followed by what is buffered, is what that was
  -- before followed by what is owed, less texts that are no frames. The buffer holds at most one
  -- message, or no more than it did at first.
  pub run_session-Relayed :
      (rs : List Round) (l : Link) (w : W)
      → let (on, l', w') = run_session wire lib secs id config rs l w in
        Relayed (owed_by_session rs l w) (buffer l) w (buffer l') w'
  unfolding run_session
  run_session-Relayed [] l w = untouched (buffer l) _ w w refl refl
  run_session-Relayed (r ∷ rs) l w =
      let (on, l', w') = round wire lib secs id config r l w in
      let first = round-Relayed r l w in
      elim (Bool-cases on) [
        | inl goes ↦
            rw (goes, run_session, owed_by_session)
              (Relayed-trans _ _ _ _ _ w w' _ first (run_session-Relayed rs l' w'))
        | inr ends ↦ rw (ends, run_session, owed_by_session, append-nil (owed_by_round r l w)) first
      ]
