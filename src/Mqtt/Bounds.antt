-- ===== src/Mqtt/Bounds.antt =====
-- How long the publisher's buffer gets (src/mqtt.rs).
pub mod Handlers
pub mod Running
pub mod Overrun
use ocpp_proxy.Base.{
  ℕ, ◌+◌, ◌≤◌, max, String, Bool, true, false, not, Option, none, some, List, [], ◌∷◌, ◌++◌, length,
  is_empty, lookup, ◌≡◌, refl, ap, sym, ◌∙◌, ◌⊎◌, inl, inr, arith, Bool-cases, Option-cases,
  Result-cases, push_bounded, push_bounded_within, unwrap_or, is_some, option_bind, insert, Result,
  ok, err,
}
use ocpp_proxy.Json.{Json}
use ocpp_proxy.Models.{connected, reconnecting, same_state, OcppFrame, Direction}
use ocpp_proxy.Models.Backoff.{Seconds}
use ocpp_proxy.Models.Backoff
use ocpp_proxy.Events.{MqttEvent, message_forwarded, state_change, command_result}
use ocpp_proxy.Command.{CommandRequest, CommandResult, result_json}
use ocpp_proxy.Command.Topics.{parse_command_topic, command_result_topic}
use ocpp_proxy.Command.Payload.{Decoders, parse_command_payload}
use ocpp_proxy.Command.Router.{dispatch, not_connected, queue_full}
use ocpp_proxy.Mqtt.{
  MqttMessage, MqttPublisher, Client, LinkState, message_topic, status_topic, direction_str,
  charge_point_state_topic,
}
use ocpp_proxy.Mqtt.Snapshot.{ChargePointState, no_state, apply, apply_command_result, state_json}
use ocpp_proxy.Mqtt.Buffer.{
  drain, drain_buffer, drain_connected, buffer_message, enqueue, flush_buffer, publish_online,
  try_subscribe, set_state,
}
use ocpp_proxy.Mqtt.Delivery.{drain-count}
use ocpp_proxy.Mqtt.Handling.{
  Clock, Polled, con_ack, publish, other, lost, enqueue_json, publish_charge_point_state,
  update_snapshot, publish_command_result, dispatch_command, handle_incoming_publish,
  maybe_reapply_limit, standing_limit, on_message, on_state_change, payload_json, link_json,
  comes_up, handle_event, republish_snapshots, on_connack, on_polled,
}
use ocpp_proxy.Mqtt.Run.{Turn, polled, received, channel_closed, run}

-- The buffer's size is `most`, and it holds at most `extra` messages more.
abbrev pub Within : {Tx : Type 0} → ℕ → ℕ → MqttPublisher Tx → Type 0
Within most extra p = (p.max_buffer_size ≡ most) × (length p.buffer ≤ max most 1 + extra)

module _ {Tx W : Type 0} (client : Client Tx W) (most extra : ℕ) where
  drain-Within :
      (p : MqttPublisher Tx) (w : W)
      → Within most extra p
      → Within most extra (drain_buffer client p w).1
  unfolding drain_buffer
  drain-Within p w (size, short) = (size, omega (arith, drain-count client p.buffer w, short))

  pub drain_connected-Within :
      (p : MqttPublisher Tx) (w : W)
      → Within most extra p
      → Within most extra (drain_connected client p w).0
  unfolding drain_connected
  drain_connected-Within p w h = elim (Bool-cases (same_state p.state connected)) [
    | inl e ↦ rw e (drain-Within p w h)
    | inr e ↦ rw e h
  ]

  pub enqueue-Within :
      (m : MqttMessage) (p : MqttPublisher Tx) (w : W)
      → Within most extra p
      → Within most extra (enqueue client m p w).0
  unfolding enqueue buffer_message
  enqueue-Within m p w (size, short) =
      drain_connected-Within (buffer_message m p) w (
        size,
        rw size (push_bounded_within most (max most 1 + extra) m p.buffer (omega arith) short),
      )

  pub flush_buffer-Within :
      (p : MqttPublisher Tx) (w : W)
      → Within most extra p
      → Within most extra (flush_buffer client p w).0
  unfolding flush_buffer
  flush_buffer-Within p w h = elim (Bool-cases (is_empty p.buffer)) [
    | inl e ↦ rw e h
    | inr e ↦ rw e (drain-Within (record p { flush_in_progress = some 0 }) w h)
  ]

  pub try_subscribe-Within :
      (p : MqttPublisher Tx) (w : W)
      → Within most extra p
      → Within most extra (try_subscribe client p w).0
  unfolding try_subscribe
  try_subscribe-Within p w h = elim (Bool-cases p.subscribe_pending) [
    | inr e ↦ rw e h
    | inl e ↦ elim (Bool-cases (client.try_subscribe w).0) [
      | inl a ↦ rw (e, a) h
      | inr a ↦ rw (e, a) h
    ]
  ]

module _ {Tx W : Type 0} (client : Client Tx W) (most extra : ℕ) where
  -- The message "online" goes to the front without a test of the bound.
  pub publish_online-Within :
      (p : MqttPublisher Tx) (w : W)
      → Within most extra p
      → Within most (extra + 1) (publish_online client p w).0
  unfolding publish_online
  publish_online-Within p w (size, short) = elim (Option-cases p.lwt_charge_point_id) [
    | inl e ↦ rw e (size, omega (arith, short))
    | inr (id, e) ↦ rw e (drain-Within client most (extra + 1) _ w (size, omega (arith, short)))
  ]
