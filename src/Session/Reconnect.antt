-- ===== src/Session/Reconnect.antt =====
-- `run_session` of src/session.rs: the loop around `forward_loop` that connects to the Central System,
-- waits between the attempts, replays the buffer, and ends the session.
use ocpp_proxy.Base.{
  ℕ, zero, suc, ◌+◌, ◌-◌, min, max, String, Bool, true, false, Option, none, some, unwrap_or, List,
  [], ◌∷◌, length, ok, err, if◌then◌else◌, leb,
}
use ocpp_proxy.Models.{
  charger_to_central, central_to_charger, ConnectionState, connecting, connected, reconnecting,
  disconnected,
}
use ocpp_proxy.Models.Backoff
use ocpp_proxy.Models.Backoff.{ExponentialBackoff, Seconds, next_delay}
use ocpp_proxy.State.{ConnectionStateManager, record_forwarded, record_dropped}
use ocpp_proxy.Config.Charging.{ChargingConfig}
use ocpp_proxy.Command.{
  CommandRequest, InFlight, for_request, for_in_flight, not_connected, timeout,
}
use ocpp_proxy.Command.Queue.{drain}
use ocpp_proxy.Forwarder.{MessageForwarder, flush_upstream, discard_downstream_buffer}
use ocpp_proxy.Session.Wire.{Wire, Libraries, Moment, upstream_sink}
use ocpp_proxy.Session.LocalCalls.{emit}
use ocpp_proxy.Session.Status.{set_upstream_state}
use ocpp_proxy.Session.Loop.{
  Session, running, charger_gone, upstream_lost, shutdown, Incoming, close, error, ended, Event,
  forward_loop,
}

abbrev pub close_normal : ℕ
close_normal = 1000

abbrev pub close_going_away : ℕ
close_going_away = 1001

abbrev pub one_millisecond : ℕ
one_millisecond = 1_000_000

-- `SessionConfig`; durations are in nanoseconds, addresses are texts
pub record SessionConfig : Type 0 where
  pub central_system_url : String
  pub upstream_bind_address : Option String
  pub subprotocol : String
  pub message_buffer_size : ℕ
  pub max_buffer_duration : ℕ
  pub connect_timeout : ℕ
  pub initial_backoff : ℕ
  pub max_backoff : ℕ
  pub call_tracker_max_age : ℕ
  pub max_reconnect_window : ℕ
  pub charging : ChargingConfig

-- the variables of `run_session`
pub record Link : Type 0 where
  pub session : Session
  pub backoff : ExponentialBackoff
  pub reconnecting_since : Option ℕ
  pub close_code : ℕ

-- What ends a wait: the delay, the shutdown, or the charger.
pub data Wake : Type 0 where
  slept cancelled : Wake
  heard : Incoming → Wake

-- One pass of the outer loop: a connection that fails, or one that opens and the events of its loop.
pub data Round : Type 0 where
  refused : (begun failed : Moment) (wake : Wake) → Round
  opened :
      (begun made : Moment) (events : List (Moment × Event)) (lost : Moment) (wake : Wake) → Round

-- the patterns that end the session while it waits
abbrev hung_up : Incoming → Bool
hung_up close = true
hung_up ended = true
hung_up error = true
hung_up _ = false

-- whether the session goes on after a wait
abbrev goes_on : Wake → Bool
goes_on slept = true
goes_on cancelled = false
goes_on (heard m) = if hung_up m then false else true

-- `started.elapsed()`, where `started` is set at the first failure
abbrev pub elapsed : ℕ → Link → ℕ
elapsed instant l = instant - unwrap_or l.reconnecting_since instant

forwarded_times : ℕ → ConnectionStateManager → ConnectionStateManager
forwarded_times zero m = m
forwarded_times (suc n) m = forwarded_times n (record_forwarded charger_to_central m)

module _ {W : Type 0} (wire : Wire W) (lib : Libraries) (secs : Seconds) (id : String)
    (config : SessionConfig) where
  unfoldable pub enter : ℕ → ConnectionState → Link → W → Link × W
  enter now s l w =
      let (m, w') = set_upstream_state wire id now s l.session.manager w in
      let session = record l.session { manager = m } in (record l { session = session }, w')

  -- the `Err` branch of `connect_upstream`: how long it waits, or nothing where it gives up
  unfoldable pub on_connect_failed : Moment → Link → W → Option ℕ × Link × W
  unfolding enter
  on_connect_failed at l w =
      let noted = record l {
        reconnecting_since = some (unwrap_or l.reconnecting_since at.instant);
      } in
      let (waiting, w') = enter at.now reconnecting noted w in
      let (delay, backoff) = next_delay secs l.backoff in
      if leb config.max_reconnect_window (elapsed at.instant l)
      then (none, record noted { close_code = close_going_away }, w)
      else (
        some (min delay (max (config.max_reconnect_window - elapsed at.instant l) one_millisecond)),
        record waiting { backoff = backoff },
        w',
      )

  -- the connection is made: whether the buffer was replayed
  unfoldable pub on_connected : Moment → Link → W → Bool × Link × W
  unfolding enter forwarded_times
  on_connected at l w =
      let fresh = record l { backoff = Backoff.reset l.backoff; reconnecting_since = none } in
      let (up, w') = enter at.now connected fresh w in
      let (replayed, forwarder, w'') =
        flush_upstream (upstream_sink wire) up.session.forwarder w' in
      let flushed = record up.session { forwarder = forwarder } in
      elim replayed [
        | ok n ↦
            let counted = record flushed { manager = forwarded_times n flushed.manager } in
            (true, record up { session = counted }, w'')
        | err e ↦ (false, record up { session = flushed }, w'')
      ]

  -- `LoopOutcome::UpstreamLost`: how long it waits
  unfoldable pub on_upstream_lost : Moment → Link → W → ℕ × Link × W
  unfolding enter
  on_upstream_lost at l w =
      let session = record l.session {
        forwarder = discard_downstream_buffer l.session.forwarder;
      } in
      let (down, w') = enter at.now reconnecting (record l { session = session }) w in
      let (delay, backoff) = next_delay secs l.backoff in
      (
        delay,
        record down {
          backoff = backoff;
          reconnecting_since = some (unwrap_or l.reconnecting_since at.instant);
        },
        w',
      )

  abbrev pub undelivered : MessageForwarder → ConnectionStateManager → ConnectionStateManager
  undelivered f m =
      let up = length f.upstream_buffer in
      let down = length f.downstream_buffer in
      if leb 1 (up + down)
      then record_dropped central_to_charger down (record_dropped charger_to_central up m)
      else m

  unfoldable pub report_unsent : String → List CommandRequest → W → W
  report_unsent stamp [] w = w
  report_unsent stamp (r ∷ rs) w = report_unsent stamp rs (
      emit wire lib id
        (for_request stamp r not_connected
          (some "charger session ended before the command was sent"))
        w)

  unfoldable pub report_in_flight : String → Option InFlight → W → W
  report_in_flight stamp none w = w
  report_in_flight stamp (some f) w =
      emit wire lib id
        (for_in_flight lib.from_str stamp f timeout none
          (some "charger session ended before it answered"))
        w

  -- what the session reports at its end; `unread` are the requests in the command channel then
  unfoldable pub drain_commands : Moment → List CommandRequest → Link → W → Link × W
  unfolding report_unsent report_in_flight
  drain_commands at unread l w =
      let (queued, in_flight, local) = drain l.session.local in
      let session = record l.session {
        local = local;
        manager = undelivered l.session.forwarder l.session.manager;
      } in
      (
        record l { session = session },
        report_unsent at.stamp unread
            (report_in_flight at.stamp in_flight (report_unsent at.stamp queued w)),
      )

  -- The close frame, and the wait for the writer. The router still has the session's channel until then:
  -- `late` are the requests that it puts there, and the channel is dropped with them.
  unfoldable pub hang_up : Moment → List CommandRequest → Link → W → Link × W
  unfolding enter
  hang_up at late l w = enter at.now disconnected l (wire.close_charger l.close_code w)

  -- the end of the session
  unfoldable pub teardown :
      (at closed : Moment) (unread late : List CommandRequest) → Link → W → Link × W
  unfolding drain_commands hang_up
  teardown at closed unread late l w =
      let (drained, w') = drain_commands at unread l w in hang_up closed late drained w'

  -- one round: whether the session goes on
  unfoldable pub round : Round → Link → W → Bool × Link × W
  unfolding enter
  round (refused begun failed wake) l w =
      let (trying, w') = enter begun.now connecting l w in
      let (wait, l', w'') = on_connect_failed failed trying w' in
      elim wait [ none ↦ (false, l', w'') | some d ↦ (goes_on wake, l', w'') ]
  round (opened begun made events lost wake) l w =
      let (trying, w') = enter begun.now connecting l w in
      let (replayed, up, u) = on_connected made trying w' in
      let (outcome, session, u') = forward_loop wire lib id config.charging events up.session u in
      let after = record up { session = session } in
      let (d, down, v) = on_upstream_lost lost after u' in
      if replayed
      then (elim outcome [
        | running ↦ (true, after, u')
        | charger_gone ↦ (false, after, u')
        | shutdown ↦ (false, after, u')
        | upstream_lost ↦
            ((elim wake [ slept ↦ true | cancelled ↦ false | heard m ↦ true ]), down, v)
      ])
      else (true, up, u)

  -- `run_session`, over the rounds that it sees: whether it is still in its loop, and its state there
  unfoldable pub run_session : List Round → Link → W → Bool × Link × W
  run_session [] l w = (true, l, w)
  run_session (r ∷ rs) l w =
      let (on, l', w') = round r l w in
      let rest = run_session rs l' w' in if on then rest else (false, l', w')
