-- ===== src/Session/Ledger/Sessions.antt =====
-- The ledger of requests over the rounds of a session (src/session.rs).
use ocpp_proxy.Base.{
  ℕ, ◌+◌, String, Bool, List, [], ◌∷◌, ◌≡◌, refl, ap, ◌∙◌, arith, inl, inr, if◌then◌else◌, leb,
  Bool-cases, Option-cases, Result-cases,
}
use ocpp_proxy.Models.{OcppFrame, ConnectionState, connecting, reconnecting, connected, same_state}
use ocpp_proxy.Models.Backoff.{Seconds}
use ocpp_proxy.State.{ConnectionStateManager}
use ocpp_proxy.Forwarder.{flush, flush_upstream}
use ocpp_proxy.Session.Wire.{Wire, Libraries, Moment, upstream_sink}
use ocpp_proxy.Session.Status.{set_upstream_state, publish_status}
use ocpp_proxy.Session.Loop.{forward_loop}
use ocpp_proxy.Session.Reconnect.{
  Link, SessionConfig, Round, refused, opened, enter, on_connect_failed, on_connected,
  on_upstream_lost, elapsed, round, run_session,
}
use ocpp_proxy.Session.Conservation.{LoopOutcome-cases}
use ocpp_proxy.Session.Ledger.{outstanding, results, publish-results, upstream_sink-results}
use ocpp_proxy.Session.Ledger.Loops.{asked_by_loop, forward_loop_ledger}

module _ {W : Type 0} (p : String → Bool) (wire : Wire W) (lib : Libraries) (secs : Seconds)
    (id : String) (config : SessionConfig) where
  open wire use {offered}

  -- the results given and the requests outstanding are those before and `n` more
  abbrev pub Even : ℕ → Link → W → Link → W → Type 0
  Even n l w l' w' =
      results p wire lib id w' + outstanding p l'.session.local
      ≡ results p wire lib id w + outstanding p l.session.local + n

  -- the requests that a round has the session read, and all rounds as far as the session goes
  abbrev asked_by_round : Round → Link → W → ℕ
  asked_by_round (refused begun failed wake) l w = 0
  asked_by_round (opened begun made events lost wake) l w =
      let (trying, w') = enter wire lib secs id config begun.now connecting l w in
      let (replayed, up, u) = on_connected wire lib secs id config made trying w' in
      if replayed then asked_by_loop p wire lib id config.charging events up.session u else 0

  abbrev pub asked_by_session : List Round → Link → W → ℕ
  asked_by_session [] l w = 0
  asked_by_session (r ∷ rs) l w =
      let (on, l', w') = round wire lib secs id config r l w in
      let rest = asked_by_session rs l' w' in asked_by_round r l w + (if on then rest else 0)

  pub status-results :
      (now : ℕ) (c : ConnectionState) (m : ConnectionStateManager) (w : W)
      → results p wire lib id (set_upstream_state wire id now c m w).1 ≡ results p wire lib id w
  unfolding set_upstream_state publish_status
  status-results now c m w = elim (Bool-cases (same_state m.upstream_state c)) [
    | inl e ↦ rw e refl
    | inr e ↦ rw e (publish-results p wire lib id _ w refl)
  ]

  enter_ledger :
      (now : ℕ) (c : ConnectionState) (l : Link) (w : W)
      → let r = enter wire lib secs id config now c l w in
        (results p wire lib id r.1 ≡ results p wire lib id w)
        × (r.0.session.local ≡ l.session.local)
  unfolding enter
  enter_ledger now c l w = (status-results now c l.session.manager w, refl)

  flush-results :
      (frames : List OcppFrame) (w : W)
      → results p wire lib id (flush (upstream_sink wire) frames w).2 ≡ results p wire lib id w
  unfolding flush
  flush-results [] w = refl
  flush-results (frame ∷ rest) w = elim (Result-cases (upstream_sink wire frame.raw w).0) [
    | inl (u, e) ↦
        rw (e, flush)
          (flush-results rest (upstream_sink wire frame.raw w).1
            ∙ upstream_sink-results p wire lib id frame.raw w)
    | inr (e, f) ↦ rw (f, flush) (upstream_sink-results p wire lib id frame.raw w)
  ]

  entered-Even :
      (now : ℕ) (c : ConnectionState) (l : Link) (w : W)
      → let (l', w') = enter wire lib secs id config now c l w in Even 0 l w l' w'
  entered-Even now c l w =
      let (same, kept) = enter_ledger now c l w in omega (arith, same, ap (outstanding p) kept)

  connected-Even :
      (at : Moment) (l : Link) (w : W)
      → let r = on_connected wire lib secs id config at l w in Even 0 l w r.1 r.2
  unfolding on_connected enter flush_upstream
  connected-Even at l w =
      let (same, kept) = enter_ledger at.now connected l w in
      let w' = (enter wire lib secs id config at.now connected l w).1 in
      let flushed = flush-results l.session.forwarder.upstream_buffer w' in
      elim (Result-cases (flush_upstream (upstream_sink wire) l.session.forwarder w').0) [
        | inl (n, e) ↦ rw (e, on_connected) (omega (arith, same, flushed))
        | inr (e, f) ↦ rw (f, on_connected) (omega (arith, same, flushed))
      ]

  failed-Even :
      (at : Moment) (l : Link) (w : W)
      → let r = on_connect_failed wire lib secs id config at l w in Even 0 l w r.1 r.2
  unfolding on_connect_failed enter
  failed-Even at l w =
      let (same, kept) = enter_ledger at.now reconnecting l w in
      elim (Bool-cases (leb config.max_reconnect_window (elapsed at.instant l))) [
        | inl late ↦ rw late (omega arith)
        | inr early ↦ rw early (omega (arith, same))
      ]

  lost-Even :
      (at : Moment) (l : Link) (w : W)
      → let r = on_upstream_lost wire lib secs id config at l w in Even 0 l w r.1 r.2
  unfolding on_upstream_lost enter
  lost-Even at l w = omega (arith, (enter_ledger at.now reconnecting l w).0)

  round-Even :
      (r : Round) (l : Link) (w : W)
      → let (on, l', w') = round wire lib secs id config r l w in
        Even (asked_by_round r l w) l w l' w'
  unfolding round
  round-Even (refused begun failed wake) l w =
      let (trying, w') = enter wire lib secs id config begun.now connecting l w in
      let first = entered-Even begun.now connecting l w in
      let then_failed = failed-Even failed trying w' in
      elim (Option-cases (on_connect_failed wire lib secs id config failed trying w').0) [
        | inl stop ↦ rw (stop, round) (omega (arith, first, then_failed))
        | inr (d, wait) ↦ rw (wait, round) (omega (arith, first, then_failed))
      ]
  round-Even (opened begun made events lost wake) l w =
      let (trying, w') = enter wire lib secs id config begun.now connecting l w in
      let (replayed, up, u) = on_connected wire lib secs id config made trying w' in
      let (o, session, u') = forward_loop wire lib id config.charging events up.session u in
      let first = entered-Even begun.now connecting l w in
      let then_up = connected-Even made trying w' in
      let looped = forward_loop_ledger p wire lib id config.charging events up.session u in
      let then_lost = lost-Even lost (record up { session = session }) u' in
      elim (Bool-cases replayed) [
        | inr fails ↦ rw (fails, round, asked_by_round) (omega (arith, first, then_up))
        | inl replays ↦ elim (LoopOutcome-cases o) [
          | inl on ↦ rw (replays, on, round, asked_by_round) (omega (arith, first, then_up, looped))
          | inr (inl gone) ↦
              rw (replays, gone, round, asked_by_round) (omega (arith, first, then_up, looped))
          | inr (inr (inl gone)) ↦
              rw (replays, gone, round, asked_by_round)
                (omega (arith, first, then_up, looped, then_lost))
          | inr (inr (inr gone)) ↦
              rw (replays, gone, round, asked_by_round) (omega (arith, first, then_up, looped))
        ]
      ]

  pub run_session-Even :
      (rs : List Round) (l : Link) (w : W)
      → let (on, l', w') = run_session wire lib secs id config rs l w in
        Even (asked_by_session rs l w) l w l' w'
  unfolding run_session
  run_session-Even [] l w = omega arith
  run_session-Even (r ∷ rs) l w =
      let (on, l', w') = round wire lib secs id config r l w in
      let first = round-Even r l w in
      elim (Bool-cases on) [
        | inl goes ↦
            rw (goes, run_session, asked_by_session)
              (omega (arith, first, run_session-Even rs l' w'))
        | inr ends ↦ rw (ends, run_session, asked_by_session) (omega (arith, first))
      ]
