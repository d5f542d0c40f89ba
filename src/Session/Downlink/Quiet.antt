-- ===== src/Session/Downlink/Quiet.antt =====
-- What the outer loop and the teardown do besides the forwarding hands the charger nothing
-- (src/session.rs).
use ocpp_proxy.Base.{
  ℕ, leb, String, Option, none, some, List, [], ◌∷◌, ◌≡◌, refl, ◌∙◌, inl, inr, Result-cases,
  Bool-cases,
}
use ocpp_proxy.Models.{
  OcppFrame, ConnectionState, same_state, connected, reconnecting, disconnected,
}
use ocpp_proxy.Models.Backoff.{Seconds}
use ocpp_proxy.State.{ConnectionStateManager}
use ocpp_proxy.Command.{CommandRequest, InFlight}
use ocpp_proxy.Command.Queue.{drain}
use ocpp_proxy.Forwarder.{flush, flush_upstream}
use ocpp_proxy.Session.Wire.{Wire, Libraries, Moment, upstream_sink}
use ocpp_proxy.Session.LocalCalls.{emit}
use ocpp_proxy.Session.Status.{set_upstream_state, publish_status}
use ocpp_proxy.Session.Reconnect.{
  Link, SessionConfig, enter, on_connect_failed, on_connected, elapsed, on_upstream_lost,
  report_unsent, report_in_flight, undelivered, drain_commands, hang_up, teardown,
}

module _ {W : Type 0} (wire : Wire W) (lib : Libraries) (secs : Seconds) (id : String)
    (config : SessionConfig) where
  open wire use {to_charger}

  status-charger :
      (now : ℕ) (s : ConnectionState) (m : ConnectionStateManager) (w : W)
      → to_charger (set_upstream_state wire id now s m w).1 ≡ to_charger w
  unfolding set_upstream_state publish_status
  status-charger now s m w = elim (Bool-cases (same_state m.upstream_state s)) [
    | inl e ↦ rw e refl
    | inr e ↦ rw e (wire.publish-charger _ w)
  ]

  pub enter-charger :
      (now : ℕ) (c : ConnectionState) (l : Link) (w : W)
      → to_charger (enter wire lib secs id config now c l w).1 ≡ to_charger w
  unfolding enter
  enter-charger now c l w = status-charger now c l.session.manager w

  flush-charger :
      (b : List OcppFrame) (w : W) → to_charger (flush (upstream_sink wire) b w).2 ≡ to_charger w
  unfolding flush upstream_sink
  flush-charger [] w = refl
  flush-charger (f ∷ b) w = elim (Result-cases (wire.send_central f.raw w).0) [
    | inl (u, e) ↦ rw (e, flush) (flush-charger b _ ∙ wire.central-charger f.raw w)
    | inr (e, l) ↦ rw (l, flush) (wire.central-charger f.raw w)
  ]

  pub failed-charger :
      (at : Moment) (l : Link) (w : W)
      → to_charger (on_connect_failed wire lib secs id config at l w).2 ≡ to_charger w
  unfolding on_connect_failed enter
  failed-charger at l w =
      elim (Bool-cases (leb config.max_reconnect_window (elapsed at.instant l))) [
        | inl late ↦ rw late refl
        | inr early ↦ rw early (status-charger at.now reconnecting l.session.manager w)
      ]

  pub connected-charger :
      (at : Moment) (l : Link) (w : W)
      → to_charger (on_connected wire lib secs id config at l w).2 ≡ to_charger w
  unfolding on_connected enter flush_upstream
  connected-charger at l w =
      let w' = (enter wire lib secs id config at.now connected l w).1 in
      let b = l.session.forwarder.upstream_buffer in
      let same = flush-charger b w' ∙ status-charger at.now connected l.session.manager w in
      elim (Result-cases (flush_upstream (upstream_sink wire) l.session.forwarder w').0) [
        | inl (n, e) ↦ rw (e, on_connected) same
        | inr (e, f) ↦ rw (f, on_connected) same
      ]

  pub lost-charger :
      (at : Moment) (l : Link) (w : W)
      → to_charger (on_upstream_lost wire lib secs id config at l w).2 ≡ to_charger w
  unfolding on_upstream_lost enter
  lost-charger at l w = status-charger at.now reconnecting l.session.manager w

  unsent-charger :
      (stamp : String) (rs : List CommandRequest) (w : W)
      → to_charger (report_unsent wire lib secs id config stamp rs w) ≡ to_charger w
  unfolding report_unsent emit
  unsent-charger stamp [] w = refl
  unsent-charger stamp (r ∷ rs) w = unsent-charger stamp rs _ ∙ wire.publish-charger _ w

  in_flight-charger :
      (stamp : String) (f : Option InFlight) (w : W)
      → to_charger (report_in_flight wire lib secs id config stamp f w) ≡ to_charger w
  unfolding report_in_flight emit
  in_flight-charger stamp none w = refl
  in_flight-charger stamp (some f) w = wire.publish-charger _ w

  pub teardown-charger :
      (at closed : Moment) (unread late : List CommandRequest) (l : Link) (w : W)
      → to_charger (teardown wire lib secs id config at closed unread late l w).1 ≡ to_charger w
  unfolding teardown drain_commands hang_up enter drain
  teardown-charger at closed unread late l w =
      status-charger closed.now disconnected
        (undelivered wire lib secs id config l.session.forwarder l.session.manager) _
      ∙ wire.close-charger l.close_code _
      ∙ unsent-charger at.stamp unread _
      ∙ in_flight-charger at.stamp l.session.local.in_flight _
      ∙ unsent-charger at.stamp l.session.local.queued w
