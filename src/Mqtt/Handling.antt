-- ===== src/Mqtt/Handling.antt =====
-- The handlers of the publisher (src/mqtt.rs): commands that arrive, events of the sessions, and the
-- connection to the broker. An id that is generated takes the clock `millis`.
use ocpp_proxy.Base.{
  ℕ, String, Bool, true, false, not, ◌&&◌, ◌==◌, Option, none, some, List, [], ◌∷◌, ok, err,
  if◌then◌else◌, is_some, unwrap_or, option_bind, lookup, insert,
}
use ocpp_proxy.Base.Text.{format, decimal}
use ocpp_proxy.Base.Float.{F64}
use ocpp_proxy.Json.{Json, string, dict}
use ocpp_proxy.Models.{OcppFrame, Direction, connected, reconnecting, same_state}
use ocpp_proxy.Models.Backoff
use ocpp_proxy.Models.Backoff.{Seconds, next_delay}
use ocpp_proxy.Events.{MqttEvent, message_forwarded, state_change, command_result}
use ocpp_proxy.Command.{
  CommandRequest, CommandResult, CommandStatus, rejected, for_request, invalid_payload, result_json,
  set_current_limit, reapply, new_request,
}
use ocpp_proxy.Command
use ocpp_proxy.Command.Topics.{parse_command_topic, command_result_topic}
use ocpp_proxy.Command.Payload.{Decoders, parse_command_payload}
use ocpp_proxy.Command.Router.{dispatch, not_connected, queue_full}
use ocpp_proxy.Mqtt.{
  MqttMessage, MqttPublisher, Client, LinkState, message_type_str, direction_str,
  connection_state_str, message_topic, charge_point_state_topic, status_topic,
}
use ocpp_proxy.Mqtt.Snapshot.{ChargePointState, no_state, apply, apply_command_result, state_json}
use ocpp_proxy.Mqtt.Buffer.{
  drain_connected, enqueue, flush_buffer, publish_online, try_subscribe, set_state,
}

-- The clocks at one event, and the time as a text.
pub record Clock : Type 0 where
  pub now : ℕ
  pub millis : ℕ
  pub stamp : String

-- What `self.eventloop.poll()` yields.
pub data Polled (Bytes : Type 0) : Type 0 where
  con_ack : Polled Bytes
  publish : (topic : String) (payload : Bytes) → Polled Bytes
  other : Polled Bytes
  lost : Polled Bytes

module _ {Tx W Bytes : Type 0} (client : Client Tx W) (d : Decoders Bytes) (rfc3339 : ℕ → String)
    (secs : Seconds) (at : Clock) where
  abbrev Change : Type 0
  Change = MqttPublisher Tx → W → MqttPublisher Tx × W

  -- a message whose payload is JSON; where it cannot be written there is no message
  unfoldable pub enqueue_json : String → Json → Bool → Change
  enqueue_json topic value retain p w = elim (client.to_vec value) [
    | err e ↦ (p, w)
    | ok payload ↦
        let m : MqttMessage = record { topic = topic; payload = payload; retain = retain } in
        enqueue client m p w
  ]

  -- `publish_charge_point_state`
  unfoldable pub publish_charge_point_state : String → ChargePointState → Change
  unfolding enqueue_json
  publish_charge_point_state id snapshot p w =
      enqueue_json (charge_point_state_topic id) (state_json snapshot) true p w

  -- the entry is updated; where it changed, the store is saved and the snapshot published
  unfoldable pub update_snapshot : String → (ChargePointState → Bool × ChargePointState) → Change
  unfolding publish_charge_point_state
  update_snapshot id change p w =
      let (changed, s) = change (unwrap_or (lookup id p.charge_point_state) no_state) in
      let updated = record p { charge_point_state = insert id s p.charge_point_state } in
      let published =
        publish_charge_point_state id s updated (client.save updated.charge_point_state w) in
      if changed then published else (updated, w)

  -- `publish_command_result`
  unfoldable pub publish_command_result : String → CommandResult → Change
  unfolding enqueue_json update_snapshot
  publish_command_result id result p w =
      let (queued, w') = enqueue_json (command_result_topic id) (result_json result) false p w in
      update_snapshot id (apply_command_result at.stamp result) queued w'

  -- `dispatch_command`
  unfoldable pub dispatch_command : String → CommandRequest → Change
  dispatch_command id request p w =
      let answer = λ (status : CommandStatus) (detail : String) (w : W).
        publish_command_result id (for_request at.stamp request status (some detail)) p w in
      elim p.command_router [
        | none ↦ answer rejected "charger commands are disabled on this proxy" w
        | some router ↦
            let (sent, w') = dispatch client.try_send id request router w in
            elim sent [
              | ok u ↦ (p, w')
              | err not_connected ↦
                  answer Command.not_connected "no charger with this id is connected to the proxy"
                    w'
              | err queue_full ↦ answer rejected "the session's command queue is full" w'
            ]
      ]

  -- `handle_incoming_publish`
  unfoldable pub handle_incoming_publish : String → Bytes → Change
  unfolding dispatch_command
  handle_incoming_publish topic payload p w = elim (parse_command_topic topic) [
    | none ↦ (p, w)
    | some (id, kind) ↦ elim (parse_command_payload d at.now at.millis kind payload) [
      | err reason ↦ publish_command_result id (invalid_payload at.stamp at.millis reason) p w
      | ok request ↦ dispatch_command id request p w
    ]
  ]

  unfoldable pub accepted_limit : ChargePointState → Option F64
  accepted_limit s = elim s.current_limit_status [
    | none ↦ none
    | some status ↦ if status == "accepted" then s.current_limit_a else none
  ]

  -- the limit that is re-applied, if any
  unfoldable pub standing_limit : String → MqttPublisher Tx → Option F64
  unfolding accepted_limit
  standing_limit id p = option_bind p.charging λ charging.
      if charging.reapply_on_connect
      then option_bind (lookup id p.charge_point_state) accepted_limit
      else none

  -- `maybe_reapply_limit`
  unfoldable pub maybe_reapply_limit : String → Change
  maybe_reapply_limit id p w = elim (standing_limit id p) [
    | none ↦ (p, w)
    | some limit_a ↦
        dispatch_command id
          (new_request at.now (format ("reapply-" ∷ decimal at.millis ∷ []))
            (set_current_limit limit_a) reapply)
          p w
  ]

  -- the JSON of `MqttPayload`
  abbrev pub payload_json : OcppFrame → Json
  payload_json frame = dict (
      ("timestamp", string (rfc3339 frame.received_at))
      ∷ ("message_type", string (message_type_str frame.message_type))
      ∷ ("payload", elim (d.from_str frame.raw) [ ok v ↦ v | err e ↦ string frame.raw ])
      ∷ [])

  unfoldable pub on_message : String → OcppFrame → Direction → String → Change
  unfolding update_snapshot
  on_message id frame direction action p w = elim (client.to_vec (payload_json frame)) [
    | err e ↦ (p, w)
    | ok payload ↦
        let m : MqttMessage = record {
          topic = message_topic id (direction_str direction) action;
          payload = payload;
          retain = false;
        } in
        let (queued, w') = enqueue client m p w in
        update_snapshot id (apply d.from_str at.stamp action frame.message_type frame.raw) queued w'
  ]

  abbrev both_up : LinkState → Bool
  both_up l = same_state l.upstream connected && same_state l.downstream connected

  abbrev was_up : Option LinkState → Bool
  was_up none = false
  was_up (some l) = both_up l

  -- both links are up now, and were not before
  abbrev pub comes_up : LinkState → Option LinkState → Bool
  comes_up link before = both_up link && not (was_up before)

  -- the JSON of the status
  abbrev pub link_json : LinkState → Json
  link_json link = dict (
      ("upstream", string (connection_state_str link.upstream))
      ∷ ("downstream", string (connection_state_str link.downstream))
      ∷ [])

  unfoldable pub on_state_change : String → LinkState → Change
  unfolding maybe_reapply_limit
  on_state_change id link p w = elim (client.to_vec (link_json link)) [
    | err e ↦ (p, w)
    | ok payload ↦
        let m : MqttMessage = record {
          topic = status_topic id;
          payload = payload;
          retain = true;
        } in
        let (queued, w') = enqueue client m p w in
        let linked = record queued { link_state = insert id link queued.link_state } in
        let reapplied = maybe_reapply_limit id linked w' in
        if comes_up link (lookup id p.link_state) then reapplied else (linked, w')
  ]

  -- `handle_event`
  unfoldable pub handle_event : MqttEvent → Change
  unfolding on_message on_state_change
  handle_event (message_forwarded id frame direction action) p w =
      on_message id frame direction action p w
  handle_event (state_change id up down) p w =
      let link : LinkState = record { upstream = up; downstream = down } in
      on_state_change id link p w
  handle_event (command_result id result) p w = publish_command_result id result p w

  -- `republish_snapshots`
  unfoldable pub republish_snapshots : List (String × ChargePointState) → Change
  republish_snapshots [] p w = (p, w)
  republish_snapshots ((id, s) ∷ ss) p w =
      let (p', w') = publish_charge_point_state id s p w in republish_snapshots ss p' w'

  -- `on_connack`
  unfoldable pub on_connack : Change
  on_connack p w =
      let up = set_state at.now connected p in
      let (online, w1) =
        publish_online client (record up { backoff = Backoff.reset up.backoff }) w in
      let (flushed, w2) = flush_buffer client online w1 in
      let (restored, w3) = republish_snapshots flushed.charge_point_state flushed w2 in
      try_subscribe client (record restored { subscribe_pending = is_some restored.command_router })
        w3

  -- one turn of `run` on what the event loop yields; the delay is not modelled
  unfoldable pub on_polled : Polled Bytes → Change
  on_polled con_ack p w = on_connack p w
  on_polled (publish topic payload) p w =
      let (handled, w') = handle_incoming_publish topic payload p w in
      drain_connected client handled w'
  on_polled other p w =
      let (subscribed, w') = try_subscribe client p w in
      let drained = drain_connected client subscribed w' in
      if same_state p.state connected then drained else (p, w)
  on_polled lost p w =
      let down = (if same_state p.state connected then set_state at.now reconnecting p else p) in
      (record down { backoff = (next_delay secs down.backoff).1 }, w)
