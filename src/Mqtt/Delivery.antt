-- ===== src/Mqtt/Delivery.antt =====
-- The order in which the broker is given messages (src/mqtt.rs).
use ocpp_proxy.Base.{
  ◌+◌, String, true, some, List, [], ◌∷◌, ◌++◌, ◌≡◌, refl, ap, ◌∙◌, ◌⊎◌, inl, inr, arith,
  Bool-cases, length, is_empty, append_assoc, push_bounded,
}
use ocpp_proxy.Models.{connected, same_state}
use ocpp_proxy.Mqtt.{MqttMessage, MqttPublisher, Client, availability_topic}
use ocpp_proxy.Mqtt.Buffer.{
  drain, drain_buffer, drain_connected, buffer_message, enqueue, flush_buffer, publish_online,
}

module _ {Tx W : Type 0} (client : Client Tx W) where
  open client use {published}

  drain-order :
      (ms : List MqttMessage) (w : W)
      → published (drain client ms w).2 ++ (drain client ms w).1 ≡ published w ++ ms
  unfolding drain
  drain-order [] w = refl
  drain-order (m ∷ ms) w = elim (Bool-cases (client.try_publish m w).0) [
    | inl e ↦
        rw (e, drain)
          (drain-order ms (client.try_publish m w).1
            ∙ ap (λ gs. gs ++ ms) (client.published-ok m w e)
            ∙ append_assoc (published w) (m ∷ []) ms)
    | inr e ↦ rw (e, drain) (ap (λ gs. gs ++ m ∷ ms) (client.published-refused m w e))
  ]

  -- the number that `drain` returns is the number of messages that left the buffer
  pub drain-count :
      (ms : List MqttMessage) (w : W)
      → (drain client ms w).0 + length (drain client ms w).1 ≡ length ms
  unfolding drain
  drain-count [] w = refl
  drain-count (m ∷ ms) w = elim (Bool-cases (client.try_publish m w).0) [
    | inl e ↦ rw (e, drain) (omega (arith, drain-count ms (client.try_publish m w).1))
    | inr e ↦ rw (e, drain) (omega arith)
  ]

  -- Draining hands the client a first part of the buffer in its order, keeps the rest in its order, and
  -- returns how many messages it handed over.
  pub drain_buffer_lem :
      (p : MqttPublisher Tx) (w : W)
      → let r = drain_buffer client p w in
        (published r.2 ++ r.1.buffer ≡ published w ++ p.buffer)
        × (r.0 + length r.1.buffer ≡ length p.buffer)
  unfolding drain_buffer
  drain_buffer_lem p w = (drain-order p.buffer w, drain-count p.buffer w)

  -- A message that is queued comes after all that was published or waits. Where the buffer is full the
  -- oldest waiting message is given up for it; nothing else is lost, repeated or moved. Nothing is
  -- published while the publisher is not connected.
  pub enqueue_lem :
      (m : MqttMessage) (p : MqttPublisher Tx) (w : W)
      → let r = enqueue client m p w in
        (published r.1 ++ r.0.buffer ≡ published w ++ push_bounded p.max_buffer_size m p.buffer)
        × ((same_state p.state connected ≡ true) ⊎ (published r.1 ≡ published w))
  unfolding enqueue drain_connected buffer_message drain_buffer
  enqueue_lem m p w = elim (Bool-cases (same_state p.state connected)) [
    | inl e ↦ rw e (drain-order (push_bounded p.max_buffer_size m p.buffer) w, inl refl)
    | inr e ↦ rw e (refl, inr refl)
  ]

  flush-order :
      (p : MqttPublisher Tx) (w : W)
      → let r = flush_buffer client p w in published r.1 ++ r.0.buffer ≡ published w ++ p.buffer
  unfolding flush_buffer drain_buffer
  flush-order p w = elim (Bool-cases (is_empty p.buffer)) [
    | inl e ↦ rw e refl
    | inr e ↦ rw e (drain-order p.buffer w)
  ]

  -- The retained "online" message goes out before the backlog, and the backlog follows in its order: what is
  -- published and what still waits are together what was published before, "online", and the backlog.
  pub publish_online-flush_buffer :
      (p : MqttPublisher Tx) (id : String) (w : W)
      → p.lwt_charge_point_id ≡ some id
      → let online : MqttMessage = record {
        topic = availability_topic id;
        payload = "online";
        retain = true;
      } in
        let (announced, w') = publish_online client p w in
        let r = flush_buffer client announced w' in
        published r.1 ++ r.0.buffer ≡ published w ++ online ∷ p.buffer
  unfolding publish_online drain_buffer
  publish_online-flush_buffer p id w e =
      flush-order (publish_online client p w).0 (publish_online client p w).1
      ∙ (rw e (drain-order _ w))
