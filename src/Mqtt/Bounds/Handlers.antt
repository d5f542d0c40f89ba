-- ===== src/Mqtt/Bounds/Handlers.antt =====
-- The handlers of the publisher lengthen its buffer only up to its bound (src/mqtt.rs).
use ocpp_proxy.Base.{
  ℕ, String, Bool, true, false, List, [], ◌∷◌, lookup, inl, inr, Bool-cases, Option-cases,
  Result-cases, unwrap_or, insert,
}
use ocpp_proxy.Json.{Json}
use ocpp_proxy.Models.{OcppFrame, Direction}
use ocpp_proxy.Models.Backoff.{Seconds}
use ocpp_proxy.Events.{MqttEvent, message_forwarded, state_change, command_result}
use ocpp_proxy.Command.{CommandRequest, CommandResult, result_json}
use ocpp_proxy.Command.Topics.{parse_command_topic, command_result_topic}
use ocpp_proxy.Command.Payload.{Decoders, parse_command_payload}
use ocpp_proxy.Command.Router.{dispatch, not_connected, queue_full}
use ocpp_proxy.Mqtt.{
  MqttMessage, MqttPublisher, Client, LinkState, message_topic, status_topic, direction_str,
  charge_point_state_topic,
}
use ocpp_proxy.Mqtt.Snapshot.{ChargePointState, no_state, apply, apply_command_result, state_json}
use ocpp_proxy.Mqtt.Buffer.{enqueue}
use ocpp_proxy.Mqtt.Handling.{
  Clock, enqueue_json, publish_charge_point_state, update_snapshot, publish_command_result,
  dispatch_command, handle_incoming_publish, maybe_reapply_limit, standing_limit, on_message,
  on_state_change, payload_json, link_json, comes_up, handle_event, republish_snapshots,
}
use ocpp_proxy.Mqtt.Bounds.{Within, enqueue-Within}

module _ {Tx W Bytes : Type 0} (client : Client Tx W) (d : Decoders Bytes) (rfc3339 : ℕ → String)
    (secs : Seconds) (most extra : ℕ) where
  -- the change lengthens the buffer only up to its bound
  abbrev pub Keeps : (MqttPublisher Tx → W → MqttPublisher Tx × W) → Type 0
  Keeps change =
      (p : MqttPublisher Tx) (w : W) → Within most extra p → Within most extra (change p w).0

  module _ (at : Clock) where
    enqueue_json-Keeps :
        (topic : String) (v : Json) (retain : Bool)
        → Keeps (enqueue_json client d rfc3339 secs at topic v retain)
    unfolding enqueue_json
    enqueue_json-Keeps topic v retain p w h = elim (Result-cases (client.to_vec v)) [
      | inl (payload, e) ↦ rw (e, enqueue_json) (enqueue-Within client most extra _ p w h)
      | inr (e, f) ↦ rw (f, enqueue_json) h
    ]

    snapshot-Keeps :
        (id : String) (s : ChargePointState)
        → Keeps (publish_charge_point_state client d rfc3339 secs at id s)
    unfolding publish_charge_point_state
    snapshot-Keeps id s p w h =
        enqueue_json-Keeps (charge_point_state_topic id) (state_json s) true p w h

    update_snapshot-Keeps :
        (id : String) (change : ChargePointState → Bool × ChargePointState)
        → Keeps (update_snapshot client d rfc3339 secs at id change)
    unfolding update_snapshot
    update_snapshot-Keeps id change p w h =
        let (changed, s) = change (unwrap_or (lookup id p.charge_point_state) no_state) in
        let updated = record p { charge_point_state = insert id s p.charge_point_state } in
        elim (Bool-cases changed) [
          | inl e ↦ rw e (snapshot-Keeps id s updated (client.save updated.charge_point_state w) h)
          | inr e ↦ rw e h
        ]

    publish_command_result-Keeps :
        (id : String) (result : CommandResult)
        → Keeps (publish_command_result client d rfc3339 secs at id result)
    unfolding publish_command_result
    publish_command_result-Keeps id result p w h =
        let topic = command_result_topic id in
        let (queued, w') =
          enqueue_json client d rfc3339 secs at topic (result_json result) false p w in
        update_snapshot-Keeps id (apply_command_result at.stamp result) queued w'
          (enqueue_json-Keeps topic (result_json result) false p w h)

    dispatch_command-Keeps :
        (id : String) (request : CommandRequest)
        → Keeps (dispatch_command client d rfc3339 secs at id request)
    unfolding dispatch_command
    dispatch_command-Keeps id request p w h = elim (Option-cases p.command_router) [
      | inl e ↦ simp (e, dispatch_command) (publish_command_result-Keeps id _ p w h)
      | inr (router, e) ↦ elim (Result-cases (dispatch client.try_send id request router w).0) [
        | inl (u, sent) ↦ simp (e, sent, dispatch_command) h
        | inr (not_connected, gone) ↦
            simp (e, gone, dispatch_command) (publish_command_result-Keeps id _ p _ h)
        | inr (queue_full, gone) ↦
            simp (e, gone, dispatch_command) (publish_command_result-Keeps id _ p _ h)
      ]
    ]

    pub handle_incoming_publish-Keeps :
        (topic : String) (payload : Bytes)
        → Keeps (handle_incoming_publish client d rfc3339 secs at topic payload)
    unfolding handle_incoming_publish
    handle_incoming_publish-Keeps topic payload p w h =
        elim (Option-cases (parse_command_topic topic)) [
          | inl e ↦ rw (e, handle_incoming_publish) h
          | inr ((id, kind), e) ↦
              elim (Result-cases (parse_command_payload d at.now at.millis kind payload)) [
                | inl (request, f) ↦
                    rw (e, f, handle_incoming_publish) (dispatch_command-Keeps id request p w h)
                | inr (reason, f) ↦
                    rw (e, f, handle_incoming_publish) (publish_command_result-Keeps id _ p w h)
              ]
        ]

    maybe_reapply_limit-Keeps :
        (id : String) → Keeps (maybe_reapply_limit client d rfc3339 secs at id)
    unfolding maybe_reapply_limit
    maybe_reapply_limit-Keeps id p w h =
        elim (Option-cases (standing_limit client d rfc3339 secs at id p)) [
          | inl e ↦ rw (e, maybe_reapply_limit) h
          | inr (limit_a, e) ↦ rw (e, maybe_reapply_limit) (dispatch_command-Keeps id _ p w h)
        ]

    on_message-Keeps :
        (id : String) (frame : OcppFrame) (direction : Direction) (action : String)
        → Keeps (on_message client d rfc3339 secs at id frame direction action)
    unfolding on_message
    on_message-Keeps id frame direction action p w h =
        elim (Result-cases (client.to_vec (payload_json client d rfc3339 secs at frame))) [
          | inr (e, f) ↦ rw (f, on_message) h
          | inl (payload, e) ↦
              let m : MqttMessage = record {
                topic = message_topic id (direction_str direction) action;
                payload = payload;
                retain = false;
              } in
              let (queued, w') = enqueue client m p w in
              rw (e, on_message)
                (update_snapshot-Keeps id
                  (apply d.from_str at.stamp action frame.message_type frame.raw) queued w'
                  (enqueue-Within client most extra m p w h))
        ]

    on_state_change-Keeps :
        (id : String) (link : LinkState) → Keeps (on_state_change client d rfc3339 secs at id link)
    unfolding on_state_change
    on_state_change-Keeps id link p w h =
        elim (Result-cases (client.to_vec (link_json client d rfc3339 secs at link))) [
          | inr (e, f) ↦ rw (f, on_state_change) h
          | inl (payload, e) ↦
              let m : MqttMessage = record {
                topic = status_topic id;
                payload = payload;
                retain = true;
              } in
              let (queued, w') = enqueue client m p w in
              let linked = record queued { link_state = insert id link queued.link_state } in
              let within = enqueue-Within client most extra m p w h in
              elim (Bool-cases (comes_up client d rfc3339 secs at link (lookup id p.link_state))) [
                | inl up ↦
                    rw (e, up, on_state_change) (maybe_reapply_limit-Keeps id linked w' within)
                | inr up ↦ rw (e, up, on_state_change) within
              ]
        ]

    pub handle_event-Keeps : (e : MqttEvent) → Keeps (handle_event client d rfc3339 secs at e)
    unfolding handle_event
    handle_event-Keeps (message_forwarded id frame direction action) p w h =
        on_message-Keeps id frame direction action p w h
    handle_event-Keeps (state_change id up down) p w h = on_state_change-Keeps id _ p w h
    handle_event-Keeps (command_result id result) p w h =
        publish_command_result-Keeps id result p w h

    pub republish-Keeps :
        (ss : List (String × ChargePointState))
        → Keeps (republish_snapshots client d rfc3339 secs at ss)
    unfolding republish_snapshots
    republish-Keeps [] p w h = h
    republish-Keeps ((id, s) ∷ ss) p w h =
        let (p', w') = publish_charge_point_state client d rfc3339 secs at id s p w in
        republish-Keeps ss p' w' (snapshot-Keeps id s p w h)
