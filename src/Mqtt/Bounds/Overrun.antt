-- ===== src/Mqtt/Bounds/Overrun.antt =====
-- The publisher's buffer outgrows its bound where the request channel stays full (src/mqtt.rs).
use ocpp_proxy.Base.{
  ℕ, ◌+◌, ◌≤◌, String, true, false, some, List, [], ◌∷◌, length, is_empty, ◌≡◌, refl, inl, inr,
  arith, Bool-cases, Result-cases, push_bounded_grows, is_some,
}
use ocpp_proxy.Models.{connected, same_state}
use ocpp_proxy.Models.Backoff.{Seconds}
use ocpp_proxy.Models.Backoff
use ocpp_proxy.Command.Payload.{Decoders}
use ocpp_proxy.Mqtt.{MqttMessage, MqttPublisher, Client, charge_point_state_topic}
use ocpp_proxy.Mqtt.Snapshot.{ChargePointState, state_json}
use ocpp_proxy.Mqtt.Buffer.{
  drain, drain_buffer, drain_connected, buffer_message, enqueue, flush_buffer, publish_online,
  try_subscribe, set_state,
}
use ocpp_proxy.Mqtt.Handling.{
  Clock, con_ack, enqueue_json, publish_charge_point_state, republish_snapshots, on_connack,
  on_polled,
}
use ocpp_proxy.Mqtt.Run.{Turn, polled, run}

-- Messages for the broker carry the id `id`, and at least `least` of them wait.
abbrev AtLeast : {Tx : Type 0} → String → ℕ → MqttPublisher Tx → Type 0
AtLeast id least p = (p.lwt_charge_point_id ≡ some id) × (least ≤ length p.buffer)

module _ {Tx W : Type 0} (client : Client Tx W) (id : String) (least : ℕ)
    (full : (m : MqttMessage) (w : W) → (client.try_publish m w).0 ≡ false) where
  drain-full : (ms : List MqttMessage) (w : W) → length (drain client ms w).1 ≡ length ms
  unfolding drain
  drain-full [] w = refl
  drain-full (m ∷ ms) w = rw (full m w) refl

  drain-AtLeast :
      (p : MqttPublisher Tx) (w : W)
      → AtLeast id least p
      → AtLeast id least (drain_buffer client p w).1
  unfolding drain_buffer
  drain-AtLeast p w (name, long) = (name, omega (arith, drain-full p.buffer w, long))

  pub flush_buffer-AtLeast :
      (p : MqttPublisher Tx) (w : W)
      → AtLeast id least p
      → AtLeast id least (flush_buffer client p w).0
  unfolding flush_buffer
  flush_buffer-AtLeast p w h = elim (Bool-cases (is_empty p.buffer)) [
    | inl e ↦ rw e h
    | inr e ↦ rw e (drain-AtLeast (record p { flush_in_progress = some 0 }) w h)
  ]

  enqueue-AtLeast :
      (m : MqttMessage) (p : MqttPublisher Tx) (w : W)
      → AtLeast id least p
      → AtLeast id least (enqueue client m p w).0
  unfolding enqueue buffer_message drain_connected
  enqueue-AtLeast m p w (name, long) =
      let queued = buffer_message m p in
      let longer : AtLeast id least queued =
        (name, omega (arith, push_bounded_grows p.max_buffer_size m p.buffer, long)) in
      elim (Bool-cases (same_state p.state connected)) [
        | inl e ↦ rw e (drain-AtLeast queued w longer)
        | inr e ↦ rw e longer
      ]

  pub try_subscribe-AtLeast :
      (p : MqttPublisher Tx) (w : W)
      → AtLeast id least p
      → AtLeast id least (try_subscribe client p w).0
  unfolding try_subscribe
  try_subscribe-AtLeast p w h = elim (Bool-cases p.subscribe_pending) [
    | inr e ↦ rw e h
    | inl e ↦ elim (Bool-cases (client.try_subscribe w).0) [
      | inl a ↦ rw (e, a) h
      | inr a ↦ rw (e, a) h
    ]
  ]

  module _ {Bytes : Type 0} (d : Decoders Bytes) (rfc3339 : ℕ → String) (secs : Seconds)
      (at : Clock) where
    snapshot-AtLeast :
        (name : String) (s : ChargePointState) (p : MqttPublisher Tx) (w : W)
        → AtLeast id least p
        → AtLeast id least (publish_charge_point_state client d rfc3339 secs at name s p w).0
    unfolding publish_charge_point_state enqueue_json
    snapshot-AtLeast name s p w h = elim (Result-cases (client.to_vec (state_json s))) [
      | inl (payload, e) ↦
          let m : MqttMessage = record {
            topic = charge_point_state_topic name;
            payload = payload;
            retain = true;
          } in
          rw (e, enqueue_json) (enqueue-AtLeast m p w h)
      | inr (e, f) ↦ rw (f, enqueue_json) h
    ]

    pub republish-AtLeast :
        (ss : List (String × ChargePointState)) (p : MqttPublisher Tx) (w : W)
        → AtLeast id least p
        → AtLeast id least (republish_snapshots client d rfc3339 secs at ss p w).0
    unfolding republish_snapshots
    republish-AtLeast [] p w h = h
    republish-AtLeast ((name, s) ∷ ss) p w h =
        let (p', w') = publish_charge_point_state client d rfc3339 secs at name s p w in
        republish-AtLeast ss p' w' (snapshot-AtLeast name s p w h)

-- turns of the loop that each connect to the broker
abbrev pub reconnections : {Bytes : Type 0} → List Clock → List (Clock × Turn Bytes)
reconnections [] = []
reconnections (at ∷ ats) = (at, polled con_ack) ∷ reconnections ats

module _ {Tx W Bytes : Type 0} (client : Client Tx W) (d : Decoders Bytes) (rfc3339 : ℕ → String)
    (secs : Seconds) (id : String)
    (full : (m : MqttMessage) (w : W) → (client.try_publish m w).0 ≡ false) where
  publish_online-AtLeast :
      (least : ℕ) (p : MqttPublisher Tx) (w : W)
      → AtLeast id least p
      → AtLeast id (1 + least) (publish_online client p w).0
  unfolding publish_online
  publish_online-AtLeast least p w (name, long) =
      rw name (drain-AtLeast client id (1 + least) full _ w (refl, omega (arith, long)))

  on_connack-AtLeast :
      (at : Clock) (least : ℕ) (p : MqttPublisher Tx) (w : W)
      → AtLeast id least p
      → AtLeast id (1 + least) (on_connack client d rfc3339 secs at p w).0
  unfolding on_connack set_state
  on_connack-AtLeast at least p w h =
      let up = set_state at.now connected p in
      let fresh = record up { backoff = Backoff.reset up.backoff } in
      let (online, w1) = publish_online client fresh w in
      let (flushed, w2) = flush_buffer client online w1 in
      let (restored, w3) =
        republish_snapshots client d rfc3339 secs at flushed.charge_point_state flushed w2 in
      let due = record restored { subscribe_pending = is_some restored.command_router } in
      try_subscribe-AtLeast client id (1 + least) full due w3 (
        republish-AtLeast client id (1 + least) full d rfc3339 secs at flushed.charge_point_state
          flushed w2
          (flush_buffer-AtLeast client id (1 + least) full online w1
            (publish_online-AtLeast least fresh w h)))

  -- Where the publisher has the id of a charge point and the request channel stays full, each connection to
  -- the broker makes the buffer longer by at least one message, whatever the bound of the buffer is.
  pub run-reconnections :
      (ats : List Clock) (p : MqttPublisher Tx) (w : W)
      → p.lwt_charge_point_id ≡ some id
      → length ats + length p.buffer
        ≤ length (run client d rfc3339 secs (reconnections ats) p w).0.buffer
  unfolding run on_polled
  run-reconnections [] p w name = omega arith
  run-reconnections (at ∷ ats) p w name =
      let (p', w') = on_connack client d rfc3339 secs at p w in
      let (name', longer) = on_connack-AtLeast at (length p.buffer) p w (name, omega arith) in
      omega (arith, longer, run-reconnections ats p' w' name')
