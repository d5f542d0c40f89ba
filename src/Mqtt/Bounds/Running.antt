-- ===== src/Mqtt/Bounds/Running.antt =====
-- How long the publisher's buffer gets while its loop runs (src/mqtt.rs).
use ocpp_proxy.Base.{
  ℕ, ◌+◌, ◌≤◌, max, String, List, [], ◌∷◌, length, refl, inl, inr, arith, Bool-cases, is_some,
}
use ocpp_proxy.Models.{connected, same_state}
use ocpp_proxy.Models.Backoff.{Seconds}
use ocpp_proxy.Models.Backoff
use ocpp_proxy.Command.Payload.{Decoders}
use ocpp_proxy.Mqtt.{MqttPublisher, Client}
use ocpp_proxy.Mqtt.Buffer.{drain_connected, flush_buffer, publish_online, try_subscribe, set_state}
use ocpp_proxy.Mqtt.Handling.{
  Clock, Polled, con_ack, publish, other, lost, handle_incoming_publish, handle_event,
  republish_snapshots, on_connack, on_polled,
}
use ocpp_proxy.Mqtt.Run.{Turn, polled, received, channel_closed, run}
use ocpp_proxy.Mqtt.Bounds.{
  Within, drain_connected-Within, flush_buffer-Within, try_subscribe-Within, publish_online-Within,
}
use ocpp_proxy.Mqtt.Bounds.Handlers.{
  republish-Keeps, handle_incoming_publish-Keeps, handle_event-Keeps,
}

-- whether the event loop has connected
abbrev acknowledged : {Bytes : Type 0} → Polled Bytes → ℕ
acknowledged con_ack = 1
acknowledged _ = 0

-- how often the loop has connected to the broker, until the channel is closed
abbrev pub connections : {Bytes : Type 0} → List (Clock × Turn Bytes) → ℕ
connections [] = 0
connections ((at, polled e) ∷ ts) = acknowledged e + connections ts
connections ((at, received e) ∷ ts) = connections ts
connections ((at, channel_closed) ∷ ts) = 0

module _ {Tx W Bytes : Type 0} (client : Client Tx W) (d : Decoders Bytes) (rfc3339 : ℕ → String)
    (secs : Seconds) (most : ℕ) where
  on_connack-Within :
      (at : Clock) (extra : ℕ) (p : MqttPublisher Tx) (w : W)
      → Within most extra p
      → Within most (extra + 1) (on_connack client d rfc3339 secs at p w).0
  unfolding on_connack set_state
  on_connack-Within at extra p w h =
      let up = set_state at.now connected p in
      let fresh = record up { backoff = Backoff.reset up.backoff } in
      let (online, w1) = publish_online client fresh w in
      let (flushed, w2) = flush_buffer client online w1 in
      let (restored, w3) =
        republish_snapshots client d rfc3339 secs at flushed.charge_point_state flushed w2 in
      let due = record restored { subscribe_pending = is_some restored.command_router } in
      try_subscribe-Within client most (extra + 1) due w3 (
        republish-Keeps client d rfc3339 secs most (extra + 1) at flushed.charge_point_state flushed
          w2
          (flush_buffer-Within client most (extra + 1) online w1
            (publish_online-Within client most extra fresh w h)))

  more : (a b : ℕ) (p : MqttPublisher Tx) → a ≤ b → Within most a p → Within most b p
  more a b p le (size, short) = (size, omega (arith, short, le))

  on_polled-Within :
      (at : Clock) (e : Polled Bytes) (extra : ℕ) (p : MqttPublisher Tx) (w : W)
      → Within most extra p
      → Within most (extra + acknowledged e) (on_polled client d rfc3339 secs at e p w).0
  unfolding on_polled set_state
  on_polled-Within at con_ack extra p w h = on_connack-Within at extra p w h
  on_polled-Within at (publish topic payload) extra p w h =
      let (handled, w') = handle_incoming_publish client d rfc3339 secs at topic payload p w in
      more extra _ (drain_connected client handled w').0 (omega arith) (
        drain_connected-Within client most extra handled w'
          (handle_incoming_publish-Keeps client d rfc3339 secs most extra at topic payload p w h))
  on_polled-Within at other extra p w h =
      let (subscribed, w') = try_subscribe client p w in
      more extra _ (on_polled client d rfc3339 secs at other p w).0 (omega arith)
        (elim (Bool-cases (same_state p.state connected)) [
          | inl e ↦
              rw (e, on_polled)
                (drain_connected-Within client most extra subscribed w'
                  (try_subscribe-Within client most extra p w h))
          | inr e ↦ rw (e, on_polled) h
        ])
  on_polled-Within at lost extra p w h =
      more extra _ (on_polled client d rfc3339 secs at lost p w).0 (omega arith)
        (elim (Bool-cases (same_state p.state connected)) [
          | inl e ↦ rw (e, on_polled) h
          | inr e ↦ rw (e, on_polled) h
        ])

  run-Within :
      (ts : List (Clock × Turn Bytes)) (extra : ℕ) (p : MqttPublisher Tx) (w : W)
      → Within most extra p
      → Within most (extra + connections ts) (run client d rfc3339 secs ts p w).0
  unfolding run
  run-Within [] extra p w h = more extra _ p (omega arith) h
  run-Within ((at, polled e) ∷ ts) extra p w h =
      let (p', w') = on_polled client d rfc3339 secs at e p w in
      more (extra + acknowledged e + connections ts) _ (run client d rfc3339 secs ts p' w').0
        (omega arith)
        (run-Within ts (extra + acknowledged e) p' w' (on_polled-Within at e extra p w h))
  run-Within ((at, received e) ∷ ts) extra p w h =
      let (p', w') = handle_event client d rfc3339 secs at e p w in
      run-Within ts extra p' w' (handle_event-Keeps client d rfc3339 secs most extra at e p w h)
  run-Within ((at, channel_closed) ∷ ts) extra p w h = more extra _ p (omega arith) h

module _ {Tx W Bytes : Type 0} (client : Client Tx W) (d : Decoders Bytes) (rfc3339 : ℕ → String)
    (secs : Seconds) where
  -- Whatever the broker and the sessions do, the buffer of a publisher that starts within its bound never
  -- holds more than that bound (one message where the bound is 0) and one further message for each time
  -- that the loop has connected to the broker.
  pub run_bound_lem :
      (ts : List (Clock × Turn Bytes)) (p : MqttPublisher Tx) (w : W)
      → length p.buffer ≤ max p.max_buffer_size 1
      → length (run client d rfc3339 secs ts p w).0.buffer
        ≤ max p.max_buffer_size 1 + connections ts
  run_bound_lem ts p w h =
      let within =
        run-Within client d rfc3339 secs p.max_buffer_size ts 0 p w (refl, omega (arith, h)) in
      omega (arith, within.1)
