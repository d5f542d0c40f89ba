-- ===== src/Session/Loop.antt =====
-- `forward_loop` of src/session.rs: one function for each branch of its `select!`. The state manager
-- is the session's view of the shared one.
use ocpp_proxy.Base.{
  String, Bool, true, false, Option, none, some, List, [], ◌∷◌, ok, err, if◌then◌else◌, is_err,
}
use ocpp_proxy.Base.Text.{format, decimal}
use ocpp_proxy.Models.{
  OcppFrame, OcppMessageType, call, parse, charger_to_central, central_to_charger,
}
use ocpp_proxy.State.{ConnectionStateManager, record_forwarded}
use ocpp_proxy.Config.Charging.{ChargingConfig}
use ocpp_proxy.Command.{
  CommandRequest, InFlight, CommandStatus, superseded, rejected, timeout, for_request,
  for_in_flight, is_limit_command,
}
use ocpp_proxy.Command.Queue.{LocalCallQueue, push, expire, take_response, is_idle}
use ocpp_proxy.Forwarder.{
  MessageForwarder, forward_upstream, forward_downstream, buffer_upstream, evict_expired_messages,
  cleanup_expired_calls,
}
use ocpp_proxy.Session.Wire.{Wire, Libraries, Moment, charger_sink, upstream_sink}
use ocpp_proxy.Session.LocalCalls.{emit, send_local_calls, complete_local_call}

-- `LoopOutcome`, and `running` where the loop goes on
pub data LoopOutcome : Type 0 where
  running charger_gone upstream_lost shutdown : LoopOutcome

pub record Session : Type 0 where
  pub forwarder : MessageForwarder
  pub local : LocalCallQueue
  pub commands_open : Bool
  pub manager : ConnectionStateManager

-- what a socket yields
pub data Incoming : Type 0 where
  text : String → Incoming
  binary close other error ended : Incoming
  ping : Incoming

abbrev pub is_call : OcppMessageType → Bool
is_call (call action) = true
is_call _ = false

module _ {W : Type 0} (wire : Wire W) (lib : Libraries) (id : String) (charging : ChargingConfig)
    (at : Moment) where
  abbrev pub Step : Type 0
  Step = LoopOutcome × Session × W

  -- `send_local_calls` and the early return where the charger is gone
  unfoldable pub then_send : Session → W → Step
  then_send s w =
      let (alive, local, w') = send_local_calls wire lib id charging at s.forwarder s.local w in
      ((elim alive [ true ↦ running | false ↦ charger_gone ]), record s { local = local }, w')

  -- a frame that is forwarded to the Central System
  unfoldable pub forward_up : String → OcppFrame → Session → W → Step
  unfolding then_send
  forward_up raw frame s w =
      let (sent, forwarder, w') =
        forward_upstream (upstream_sink wire) wire.try_send frame at.now s.forwarder w in
      let counted = record s {
        forwarder = forwarder;
        manager = record_forwarded charger_to_central s.manager;
      } in
      let sending = then_send counted w' in
      elim sent [
        | ok u ↦ (if is_idle s.local then (running, counted, w') else sending)
        | err e ↦ (elim (parse lib.from_str at.now raw) [
          | ok again ↦ (upstream_lost, record s { forwarder = buffer_upstream again forwarder }, w')
          | err e' ↦ (upstream_lost, record s { forwarder = forwarder }, w')
        ])
      ]

  -- a parsed frame of the charger: an answer to a call of the proxy is consumed
  unfoldable pub on_charger_frame : String → OcppFrame → Session → W → Step
  unfolding then_send forward_up
  on_charger_frame raw frame s w =
      let (claimed, local) = take_response frame.unique_id s.local in
      let forwarding = forward_up raw frame s w in
      if is_call frame.message_type then forwarding else elim claimed [
        | none ↦ forwarding
        | some f ↦
            then_send (record s { local = local }) (complete_local_call wire lib id at f frame w)
      ]

  -- `Some(Ok(AxumMessage::Text(text)))`
  unfoldable pub on_charger_text : String → Session → W → Step
  unfolding on_charger_frame
  on_charger_text raw s w = elim (parse lib.from_str at.now raw) [
    | ok frame ↦ on_charger_frame raw frame s w
    | err e ↦
        let (sent, w') = upstream_sink wire raw w in
        ((if is_err sent then upstream_lost else running), s, w')
  ]

  -- the branch on the charger's socket
  unfoldable pub on_charger : Incoming → Session → W → Step
  unfolding on_charger_text
  on_charger (text raw) s w = on_charger_text raw s w
  on_charger binary s w = (running, s, w)
  on_charger close s w = (charger_gone, s, w)
  on_charger ended s w = (charger_gone, s, w)
  on_charger other s w = (running, s, w)
  on_charger ping s w = (running, s, w)
  on_charger error s w = (charger_gone, s, w)

  -- `Some(Ok(TungMessage::Text(text)))`
  unfoldable pub on_central_text : String → Session → W → Step
  on_central_text raw s w = elim (parse lib.from_str at.now raw) [
    | ok frame ↦
        let (sent, forwarder, w') =
          forward_downstream (charger_sink wire) wire.try_send frame at.now s.forwarder w in
        elim sent [
          | ok u ↦ (
            running,
            record s {
              forwarder = forwarder;
              manager = record_forwarded central_to_charger s.manager;
            },
            w',
          )
          | err e ↦ (charger_gone, record s { forwarder = forwarder }, w')
        ]
    | err e ↦
        let (sent, w') = charger_sink wire raw w in
        ((if is_err sent then charger_gone else running), s, w')
  ]

  -- the branch on the Central System's socket
  unfoldable pub on_central : Incoming → Session → W → Step
  unfolding on_central_text
  on_central (text raw) s w = on_central_text raw s w
  on_central ping s w =
      let (sent, w') = wire.send_pong w in ((if sent then running else upstream_lost), s, w')
  on_central close s w = (upstream_lost, s, w)
  on_central ended s w = (upstream_lost, s, w)
  on_central binary s w = (running, s, w)
  on_central other s w = (running, s, w)
  on_central error s w = (upstream_lost, s, w)

  -- how a displaced request is reported
  abbrev fate : CommandRequest → CommandStatus × String
  fate r =
      if is_limit_command r.command
      then (superseded, "a newer limit command arrived before this one was sent")
      else (rejected, "command queue full; oldest dropped")

  unfoldable pub report_displaced : List CommandRequest → W → W
  report_displaced [] w = w
  report_displaced (r ∷ rs) w =
      report_displaced rs (emit wire lib id (for_request at.stamp r (fate r).0 (some (fate r).1)) w)

  -- the branch on the command channel, which is polled only while it is open
  unfoldable pub on_command : Option CommandRequest → Session → W → Step
  unfolding report_displaced then_send
  on_command (some request) s w =
      let (displaced, local) = push request s.local in
      then_send (record s { local = local }) (report_displaced displaced w)
  on_command none s w = (running, record s { commands_open = false }, w)

  unfoldable pub report_expired : List CommandRequest → W → W
  report_expired [] w = w
  report_expired (r ∷ rs) w = report_expired rs (
      emit wire lib id
        (for_request at.stamp r timeout (
          some (
            format (
              "not sent within "
              ∷ decimal charging.command_timeout_seconds
              ∷ " s (the charger was busy answering the Central System, or the line was down)"
              ∷ []))))
        w)

  unfoldable pub report_unanswered : Option InFlight → W → W
  report_unanswered none w = w
  report_unanswered (some f) w =
      emit wire lib id
        (for_in_flight lib.from_str at.stamp f timeout none (
          some (
            format (
              "no answer from the charger within "
              ∷ decimal charging.command_timeout_seconds
              ∷ " s"
              ∷ []))))
        w

  -- `command_tick`
  unfoldable pub on_command_tick : Session → W → Step
  unfolding report_expired report_unanswered then_send
  on_command_tick s w =
      let (expired, in_flight, local) = expire lib.from_std at.now at.instant s.local in
      then_send (record s { local = local })
        (report_unanswered in_flight (report_expired expired w))

  -- `housekeeping`
  unfoldable pub on_housekeeping : Session → W → Step
  on_housekeeping s w =
      let evicted = (evict_expired_messages lib.from_std at.now s.forwarder).1 in
      (running, record s { forwarder = (cleanup_expired_calls lib.from_std at.now evicted).1 }, w)

-- What wakes the loop.
pub data Event : Type 0 where
  from_charger from_central : Incoming → Event
  command : Option CommandRequest → Event
  command_tick housekeeping cancelled : Event

module _ {W : Type 0} (wire : Wire W) (lib : Libraries) (id : String)
    (charging : ChargingConfig) where
  -- one round of the loop; a branch whose guard is false is not taken
  unfoldable pub step : Moment → Event → Session → W → LoopOutcome × Session × W
  step at (from_charger m) s w = on_charger wire lib id charging at m s w
  step at (from_central m) s w = on_central wire lib id charging at m s w
  step at (command r) s w =
      if s.commands_open then on_command wire lib id charging at r s w else (running, s, w)
  step at command_tick s w =
      if is_idle s.local then (running, s, w) else on_command_tick wire lib id charging at s w
  step at housekeeping s w = on_housekeeping wire lib id charging at s w
  step at cancelled s w = (shutdown, s, w)

  -- `forward_loop`, over the events that it sees
  unfoldable pub forward_loop : List (Moment × Event) → Session → W → LoopOutcome × Session × W
  forward_loop [] s w = (running, s, w)
  forward_loop ((at, e) ∷ es) s w =
      let (o, s', w') = step at e s w in
      let rest = forward_loop es s' w' in
      elim o [
        | running ↦ rest
        | charger_gone ↦ (charger_gone, s', w')
        | upstream_lost ↦ (upstream_lost, s', w')
        | shutdown ↦ (shutdown, s', w')
      ]
