-- ===== src/Session/Whole.antt =====
-- A session from its start to its end (`run_session` of src/session.rs).
use ocpp_proxy.Base.{
  ℕ, ◌*◌, ◌≤◌, String, true, Option, none, some, List, [], ◌∷◌, ◌++◌, append-nil, ◌≡◌, refl, ap,
  ◌∙◌, arith, length,
}
use ocpp_proxy.Models.{disconnected}
use ocpp_proxy.Models.Backoff.{Seconds, with_defaults}
use ocpp_proxy.State.{ConnectionStateManager}
use ocpp_proxy.Command.{CommandRequest, InFlight}
use ocpp_proxy.Command.Queue
use ocpp_proxy.Command.Queue.{drain}
use ocpp_proxy.Forwarder.{with_charge_point_id}
use ocpp_proxy.Forwarder.Flushing.{raws}
use ocpp_proxy.Session.Wire.{Wire, Libraries, Moment}
use ocpp_proxy.Session.LocalCalls.{emit}
use ocpp_proxy.Session.Reconnect.{
  Link, SessionConfig, Round, close_normal, enter, run_session, report_unsent, report_in_flight,
  undelivered, drain_commands, hang_up, teardown,
}
use ocpp_proxy.Session.Replay.{status-central}
use ocpp_proxy.Session.Conservation.{Kept}
use ocpp_proxy.Session.Relay.{owed_by_session, buffer, run_session-Relayed}

-- `COMMAND_CHANNEL_CAPACITY`
abbrev pub command_channel_capacity : ℕ
command_channel_capacity = 32

-- the variables of `run_session` at its start, where `manager` is the shared state
unfoldable pub start : SessionConfig → String → ConnectionStateManager → Link
start config id manager = record {
  session = record {
    forwarder =
        with_charge_point_id config.message_buffer_size config.max_buffer_duration
          config.call_tracker_max_age id;
    local =
        Queue.new (config.charging.command_timeout_seconds * 1_000_000_000)
          command_channel_capacity;
    commands_open = true;
    manager = manager;
  };
  backoff = with_defaults config.initial_backoff config.max_backoff;
  reconnecting_since = none;
  close_code = close_normal;
}

module _ {W : Type 0} (wire : Wire W) (lib : Libraries) (secs : Seconds) (id : String)
    (config : SessionConfig) where
  open wire use {to_central}

  -- `run_session` with its teardown: its state where the loop ends, and after the teardown
  unfoldable pub session :
      (rounds : List Round) (at closed : Moment) (unread late : List CommandRequest)
      → ConnectionStateManager
      → W
      → Link × Link × W
  session rounds at closed unread late manager w =
      let (on, l, w') = run_session wire lib secs id config rounds (start config id manager) w in
      let (ended, v) = teardown wire lib secs id config at closed unread late l w' in (l, ended, v)

  unsent-central :
      (stamp : String) (rs : List CommandRequest) (w : W)
      → to_central (report_unsent wire lib secs id config stamp rs w) ≡ to_central w
  unfolding report_unsent emit
  unsent-central stamp [] w = refl
  unsent-central stamp (r ∷ rs) w = unsent-central stamp rs _ ∙ wire.publish-central _ w

  in_flight-central :
      (stamp : String) (f : Option InFlight) (w : W)
      → to_central (report_in_flight wire lib secs id config stamp f w) ≡ to_central w
  unfolding report_in_flight emit
  in_flight-central stamp none w = refl
  in_flight-central stamp (some f) w = wire.publish-central _ w

  teardown-central :
      (at closed : Moment) (unread late : List CommandRequest) (l : Link) (w : W)
      → to_central (teardown wire lib secs id config at closed unread late l w).1 ≡ to_central w
  unfolding teardown drain_commands hang_up enter drain
  teardown-central at closed unread late l w =
      status-central wire id closed.now disconnected
        (undelivered wire lib secs id config l.session.forwarder l.session.manager) _
      ∙ wire.close-central l.close_code _
      ∙ unsent-central at.stamp unread _
      ∙ in_flight-central at.stamp l.session.local.in_flight _
      ∙ unsent-central at.stamp l.session.local.queued w

  -- A session delivers what it owes: over its whole life the Central System is handed the texts of the
  -- charger that its loops took, verbatim and in their order, less the charger's answers to the call of the
  -- proxy that is in flight then, less texts that are no frames, and less what is buffered when the session ends, which is the last
  -- of them and at most one.
  pub session-Kept :
      (rounds : List Round) (at closed : Moment) (unread late : List CommandRequest)
      (manager : ConnectionStateManager) (w : W)
      → let (l, ended, v) = session rounds at closed unread late manager w in
        ((ks : List String) × Kept lib
            (owed_by_session wire lib secs id config rounds (start config id manager) w)
            ks
          × (to_central v ++ raws (buffer wire lib secs id config l) ≡ to_central w ++ ks))
        × (length (buffer wire lib secs id config l) ≤ 1)
  unfolding session start with_charge_point_id
  session-Kept rounds at closed unread late manager w =
      let begun = start config id manager in
      let (on, l, w') = run_session wire lib secs id config rounds begun w in
      let ((ks, kept, all), one) = run_session-Relayed wire lib secs id config rounds begun w in
      (
        (
          ks,
          kept,
          ap (λ g. g ++ raws (buffer wire lib secs id config l))
                (teardown-central at closed unread late l w')
              ∙ all
              ∙ ap (λ g. g ++ ks) (append-nil (to_central w)),
        ),
        omega (arith, one),
      )
