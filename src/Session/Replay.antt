-- ===== src/Session/Replay.antt =====
-- The outer loop of a session: what a reconnection delivers, and when it gives up (src/session.rs).
use ocpp_proxy.Base.{
  length, ℕ, ◌+◌, ◌≤◌, ◌<◌, String, true, false, none, some, List, [], ◌∷◌, ◌++◌, ◌≡◌, ◌≢◌, refl,
  ap, ◌∙◌, ◌⊎◌, inl, inr, arith, Result-cases, Bool-cases, leb,
}
use ocpp_proxy.Models.{ConnectionState, same_state, connected, connecting}
use ocpp_proxy.State.{ConnectionStateManager}
use ocpp_proxy.Models.Backoff.{Seconds, next_delay, ExponentialBackoff}
use ocpp_proxy.Forwarder.{flush_upstream}
use ocpp_proxy.Forwarder.Flushing.{Sink, raws, flush-length, flush_upstream_lem}
use ocpp_proxy.Session.Wire.{Wire, Libraries, Moment, upstream_sink}
use ocpp_proxy.Session.Status.{set_upstream_state, publish_status}
use ocpp_proxy.Session.Reconnect.{
  Link, SessionConfig, on_connect_failed, on_connected, elapsed, close_going_away, one_millisecond,
  Round, refused, slept, run_session, round, enter,
}

module _ {W : Type 0} (wire : Wire W) where
  open wire use {to_central}

  -- the Central System as the destination of a replay
  central : Sink W
  unfolding upstream_sink
  central = record {
    send_raw = upstream_sink wire;
    given = to_central;
    given-ok = λ raw w. λ h. elim (Result-cases (wire.send_central raw w).0) [
      | inl (u, e) ↦ wire.central-ok raw w e
      | inr (e, l) ↦ absurd (ground (arith, l))
    ];
    given-err = λ raw w e h. elim (Result-cases (wire.send_central raw w).0) [
      | inl (u, s) ↦ absurd (ground (arith, s))
      | inr (e', l) ↦ wire.central-err raw w e' l
    ];
  }

  pub status-central :
      (id : String) (now : ℕ) (s : ConnectionState) (m : ConnectionStateManager) (w : W)
      → to_central (set_upstream_state wire id now s m w).1 ≡ to_central w
  unfolding set_upstream_state publish_status
  status-central id now s m w = elim (Bool-cases (same_state m.upstream_state s)) [
    | inl e ↦ rw e refl
    | inr e ↦ rw e (wire.publish-central _ w)
  ]

module _ {W : Type 0} (wire : Wire W) (lib : Libraries) (secs : Seconds) (id : String)
    (config : SessionConfig) where
  open wire use {to_central}

  -- A connection that is made replays the buffer before the loop sees a message: the Central System is handed
  -- a first part of the buffered texts in their order and the rest stays buffered. Where the replay
  -- succeeds nothing stays buffered, and where it fails something does. The backoff starts from its initial delay and the window is closed.
  pub on_connected_lem :
      (at : Moment) (l : Link) (w : W)
      → let r = on_connected wire lib secs id config at l w in
        (to_central r.2 ++ raws r.1.session.forwarder.upstream_buffer
          ≡ to_central w ++ raws l.session.forwarder.upstream_buffer)
        × (((r.0 ≡ true) × (r.1.session.forwarder.upstream_buffer ≡ []))
            ⊎ ((r.0 ≡ false) × (r.1.session.forwarder.upstream_buffer ≢ [])))
        × (r.1.backoff.current ≡ l.backoff.initial)
        × (r.1.reconnecting_since ≡ none)
  unfolding on_connected central ocpp_proxy.Models.Backoff.reset
  on_connected_lem at l w =
      let (m, w') = set_upstream_state wire id at.now connected l.session.manager w in
      let (order, success, untracked) = flush_upstream_lem (central wire) l.session.forwarder w' in
      let handed =
        order
        ∙ ap (λ g. g ++ raws l.session.forwarder.upstream_buffer)
            (status-central wire id at.now connected l.session.manager w) in
      elim (Result-cases (flush_upstream (upstream_sink wire) l.session.forwarder w').0) [
        | inl (n, e) ↦ rw (e, on_connected) (handed, inl (refl, ((success n).0 e).1), refl, refl)
        | inr (e, f) ↦
            rw (f, on_connected)
              (
                handed,
                inr (refl, λ empty. absurd (ground (arith, (success _).1 (refl, empty), f))),
                refl,
                refl,
              )
      ]

  pub connected-length :
      (at : Moment) (l : Link) (w : W)
      → length (on_connected wire lib secs id config at l w).1.session.forwarder.upstream_buffer
        ≤ length l.session.forwarder.upstream_buffer
  unfolding on_connected enter ocpp_proxy.Forwarder.flush_upstream central
  connected-length at l w =
      let w' = (enter wire lib secs id config at.now connected l w).1 in
      let shorter = flush-length (central wire) l.session.forwarder.upstream_buffer w' in
      elim (Result-cases (flush_upstream (upstream_sink wire) l.session.forwarder w').0) [
        | inl (n, e) ↦ rw (e, on_connected) shorter
        | inr (e, f) ↦ rw (f, on_connected) shorter
      ]

  -- After a failed attempt the session gives up exactly when the window has passed since the first
  -- failure, and then closes the charger with the code for going away. Otherwise it waits: at most the longest
  -- backoff delay, and not past the end of the window but for a last millisecond.
  pub on_connect_failed_lem :
      (at : Moment) (l : Link) (w : W)
      → let r = on_connect_failed wire lib secs id config at l w in
        ((config.max_reconnect_window ≤ elapsed at.instant l)
          × (r.0 ≡ none)
          × (r.1.close_code ≡ close_going_away))
        ⊎ ((d : ℕ) × (elapsed at.instant l < config.max_reconnect_window)
            × (r.0 ≡ some d)
            × (d ≤ l.backoff.max)
            × (elapsed at.instant l + d ≤ config.max_reconnect_window + one_millisecond)
            × (r.1.close_code ≡ l.close_code))
  unfolding on_connect_failed next_delay
  on_connect_failed_lem at l w =
      elim (Bool-cases (leb config.max_reconnect_window (elapsed at.instant l))) [
        | inl e ↦ rw e (inl (ground arith, refl, refl))
        | inr e ↦ rw e (inr (_, ground arith, refl, ground arith, ground arith, refl))
      ]

  -- after a failed attempt, where the upstream was first found lost at `since`
  failed-since :
      (at : Moment) (l : Link) (w : W) (since : ℕ)
      → l.reconnecting_since ≡ some since
      → let r = on_connect_failed wire lib secs id config at l w in
        ((r.0 ≡ none) × (r.1.close_code ≡ close_going_away))
        ⊎ ((d : ℕ) × (r.0 ≡ some d)
            × (r.1.reconnecting_since ≡ some since)
            × (at.instant < since + config.max_reconnect_window))
  unfolding on_connect_failed enter
  failed-since at l w since e =
      elim (Bool-cases (leb config.max_reconnect_window (elapsed at.instant l))) [
        | inl g ↦ rw g (inl (refl, refl))
        | inr g ↦ rw g (inr (_, refl, ground (arith, e), ground (arith, e)))
      ]

  refused-round :
      (begun failed : Moment) (l : Link) (w : W) (since : ℕ)
      → l.reconnecting_since ≡ some since
      → let r = round wire lib secs id config (refused begun failed slept) l w in
        ((r.0 ≡ false) × (r.1.close_code ≡ close_going_away))
        ⊎ ((r.0 ≡ true)
            × (r.1.reconnecting_since ≡ some since)
            × (failed.instant < since + config.max_reconnect_window))
  unfolding round enter
  refused-round begun failed l w since e =
      let (trying, w') = enter wire lib secs id config begun.now connecting l w in
      elim (failed-since failed trying w' since e) [
        | inl (stop, code) ↦ rw (stop, round) (inl (refl, code))
        | inr (d, wait, kept, early) ↦ rw (wait, round) (inr (refl, kept, early))
      ]

  abbrev pub refusals : List (Moment × Moment) → List Round
  refusals [] = []
  refusals ((begun, failed) ∷ ms) = refused begun failed slept ∷ refusals ms

  -- While the upstream is down and every attempt fails, the session ends, and with the code for going
  -- away, once an attempt fails when the window has passed since the upstream was first found lost.
  pub run_session-gives_up :
      (ms : List (Moment × Moment)) (begun failed : Moment) (l : Link) (w : W) (since : ℕ)
      → l.reconnecting_since ≡ some since
      → since + config.max_reconnect_window ≤ failed.instant
      → let r = run_session wire lib secs id config (refusals (ms ++ (begun, failed) ∷ [])) l w in
        (r.0 ≡ false) × (r.1.close_code ≡ close_going_away)
  unfolding run_session
  run_session-gives_up [] begun failed l w since e late =
      elim (refused-round begun failed l w since e) [
        | inl (stopped, code) ↦ rw (stopped, run_session) (refl, code)
        | inr (on, kept, early) ↦ absurd (omega arith)
      ]
  run_session-gives_up ((b, f) ∷ ms) begun failed l w since e late =
      elim (refused-round b f l w since e) [
        | inl (stopped, code) ↦ rw (stopped, run_session) (refl, code)
        | inr (on, kept, early) ↦
            rw (on, run_session) (run_session-gives_up ms begun failed _ _ since kept late)
      ]
