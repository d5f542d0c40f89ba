-- ===== src/Mqtt/Buffer.antt =====
-- The message buffer of the publisher (src/mqtt.rs): what is queued and what the client accepts.
use ocpp_proxy.Base.{
  ℕ, ◌+◌, true, false, not, Option, none, some, List, [], ◌∷◌, is_empty, if◌then◌else◌, option_map,
  push_bounded,
}
use ocpp_proxy.Models.{ConnectionState, connected, same_state, mqtt}
use ocpp_proxy.State.{transition}
use ocpp_proxy.Mqtt.{MqttMessage, MqttPublisher, Client, availability_topic}

module _ {Tx : Type 0} where
  -- `buffer_message`
  unfoldable pub buffer_message : MqttMessage → MqttPublisher Tx → MqttPublisher Tx
  unfolding push_bounded
  buffer_message m p = record p { buffer = push_bounded p.max_buffer_size m p.buffer }

  -- `set_state`, at the time `now`
  unfoldable pub set_state : ℕ → ConnectionState → MqttPublisher Tx → MqttPublisher Tx
  set_state now new_state p = record p {
    state = new_state;
    state_manager = option_map (transition now mqtt new_state) p.state_manager;
  }

module _ {Tx W : Type 0} (client : Client Tx W) where
  -- the loop of `drain_buffer`: how many are accepted, and what waits
  unfoldable pub drain : List MqttMessage → W → ℕ × List MqttMessage × W
  drain [] w = (0, [], w)
  drain (m ∷ ms) w =
      let (accepted, w') = client.try_publish m w in
      let (n, rest, w'') = drain ms w' in if accepted then (n + 1, rest, w'') else (0, m ∷ ms, w')

  abbrev progress : ℕ → List MqttMessage → Option ℕ → Option ℕ
  progress accepted rest none = none
  progress accepted rest (some published) =
      if is_empty rest then none else some (published + accepted)

  -- `drain_buffer`
  unfoldable pub drain_buffer : MqttPublisher Tx → W → ℕ × MqttPublisher Tx × W
  drain_buffer p w =
      let (accepted, rest, w') = drain p.buffer w in
      (
        accepted,
        record p { buffer = rest; flush_in_progress = progress accepted rest p.flush_in_progress },
        w',
      )

  -- `drain_buffer` where the publisher is connected
  unfoldable pub drain_connected : MqttPublisher Tx → W → MqttPublisher Tx × W
  drain_connected p w =
      let (n, drained, w') = drain_buffer p w in
      if same_state p.state connected then (drained, w') else (p, w)

  -- `enqueue`
  unfoldable pub enqueue : MqttMessage → MqttPublisher Tx → W → MqttPublisher Tx × W
  unfolding drain_connected buffer_message
  enqueue m p w = drain_connected (buffer_message m p) w

  -- `flush_buffer`
  unfoldable pub flush_buffer : MqttPublisher Tx → W → MqttPublisher Tx × W
  flush_buffer p w =
      let (n, drained, w') = drain_buffer (record p { flush_in_progress = some 0 }) w in
      if is_empty p.buffer then (p, w) else (drained, w')

  -- `publish_online`
  unfoldable pub publish_online : MqttPublisher Tx → W → MqttPublisher Tx × W
  publish_online p w = elim p.lwt_charge_point_id [
    | none ↦ (p, w)
    | some id ↦
        let online : MqttMessage = record {
          topic = availability_topic id;
          payload = "online";
          retain = true;
        } in
        let (n, drained, w') = drain_buffer (record p { buffer = online ∷ p.buffer }) w in
        (drained, w')
  ]

  -- `try_subscribe`
  unfoldable pub try_subscribe : MqttPublisher Tx → W → MqttPublisher Tx × W
  try_subscribe p w =
      let (accepted, w') = client.try_subscribe w in
      if not p.subscribe_pending
      then (p, w)
      else if accepted
      then (record p { subscribe_pending = false }, w')
      else (p, w')
