-- ===== src/Mqtt/Startup/Connecting.antt =====
-- The first connection of the publisher ends, and in which state (src/mqtt.rs).
use ocpp_proxy.Base.{
  ℕ, ◌-◌, ◌≤◌, String, Bool, true, false, Option, some, List, [], ◌∷◌, ◌++◌, ◌≡◌, refl, ◌∙◌, ◌⊎◌,
  inl, inr, arith, is_empty, eqb, Bool-cases, Option-cases, Result-cases,
}
use ocpp_proxy.Json.{Json}
use ocpp_proxy.Models.{connected, reconnecting, connecting, same_state}
use ocpp_proxy.Models.Backoff.{Seconds}
use ocpp_proxy.Command.Payload.{Decoders}
use ocpp_proxy.Mqtt.{MqttMessage, MqttPublisher, Client}
use ocpp_proxy.Mqtt.Buffer.{
  buffer_message, set_state, drain_buffer, drain_connected, enqueue, flush_buffer, publish_online,
  try_subscribe,
}
use ocpp_proxy.Mqtt.Snapshot.{ChargePointState}
use ocpp_proxy.Mqtt.Handling.{
  Clock, enqueue_json, publish_charge_point_state, republish_snapshots, on_connack,
}
use ocpp_proxy.Mqtt.Startup.{Attempt, con_ack, other, failed, elapsed, attempt_all, try_connect}

module _ {Tx W : Type 0} (client : Client Tx W) where
  drain_connected-state :
      (p : MqttPublisher Tx) (w : W) → (drain_connected client p w).0.state ≡ p.state
  unfolding drain_connected drain_buffer
  drain_connected-state p w = elim (Bool-cases (same_state p.state connected)) [
    | inl e ↦ rw e refl
    | inr e ↦ rw e refl
  ]

  enqueue-state :
      (m : MqttMessage) (p : MqttPublisher Tx) (w : W) → (enqueue client m p w).0.state ≡ p.state
  unfolding enqueue buffer_message
  enqueue-state m p w = drain_connected-state (buffer_message m p) w

  flush_buffer-state : (p : MqttPublisher Tx) (w : W) → (flush_buffer client p w).0.state ≡ p.state
  unfolding flush_buffer drain_buffer
  flush_buffer-state p w = elim (Bool-cases (is_empty p.buffer)) [
    | inl e ↦ rw e refl
    | inr e ↦ rw e refl
  ]

  publish_online-state :
      (p : MqttPublisher Tx) (w : W) → (publish_online client p w).0.state ≡ p.state
  unfolding publish_online drain_buffer
  publish_online-state p w = elim (Option-cases p.lwt_charge_point_id) [
    | inl e ↦ rw e refl
    | inr (id, e) ↦ rw e refl
  ]

  try_subscribe-state :
      (p : MqttPublisher Tx) (w : W) → (try_subscribe client p w).0.state ≡ p.state
  unfolding try_subscribe
  try_subscribe-state p w = elim (Bool-cases p.subscribe_pending) [
    | inr e ↦ rw e refl
    | inl e ↦ elim (Bool-cases (client.try_subscribe w).0) [
      | inl a ↦ rw (e, a) refl
      | inr a ↦ rw (e, a) refl
    ]
  ]

  module _ {Bytes : Type 0} (d : Decoders Bytes) (rfc3339 : ℕ → String) (secs : Seconds) where
    enqueue_json-state :
        (at : Clock) (topic : String) (value : Json) (keep : Bool) (p : MqttPublisher Tx) (w : W)
        → (enqueue_json client d rfc3339 secs at topic value keep p w).0.state ≡ p.state
    unfolding enqueue_json
    enqueue_json-state at topic value keep p w = elim (Result-cases (client.to_vec value)) [
      | inl (payload, e) ↦ rw (e, enqueue_json) (enqueue-state _ p w)
      | inr (m, e) ↦ rw (e, enqueue_json) refl
    ]

    republish-state :
        (at : Clock) (ss : List (String × ChargePointState)) (p : MqttPublisher Tx) (w : W)
        → (republish_snapshots client d rfc3339 secs at ss p w).0.state ≡ p.state
    unfolding republish_snapshots publish_charge_point_state
    republish-state at [] p w = refl
    republish-state at ((id, s) ∷ ss) p w =
        republish-state at ss _ _ ∙ enqueue_json-state at _ _ true p w

    on_connack-state :
        (at : Clock) (p : MqttPublisher Tx) (w : W)
        → (on_connack client d rfc3339 secs at p w).0.state ≡ connected
    unfolding on_connack set_state
    on_connack-state at p w =
        try_subscribe-state _ _
        ∙ republish-state at _ _ _
        ∙ flush_buffer-state _ _
        ∙ publish_online-state _ w

    -- a result, and the state that goes with it
    abbrev pub Settled : Option Bool × MqttPublisher Tx × W → Type 0
    Settled r =
        ((r.0 ≡ some true) × (r.1.state ≡ connected))
        ⊎ ((r.0 ≡ some false) × (r.1.state ≡ reconnecting))

    abbrev pub Turn : Type 0
    Turn = ℕ × Clock × Attempt

    gives_up :
        (deadline instant : ℕ) (at : Clock) (a : Attempt) (turns : List Turn) (p : MqttPublisher Tx)
        (w : W)
        → deadline ≤ instant
        → Settled (attempt_all client d rfc3339 secs deadline ((instant, at, a) ∷ turns) p w)
    unfolding attempt_all set_state
    gives_up deadline instant at a turns p w late =
        let over : eqb (deadline - instant) 0 ≡ true = ground arith in
        rw (over, attempt_all) (inr (refl, refl))

    one_turn :
        (deadline instant : ℕ) (at : Clock) (a : Attempt) (turns : List Turn) (p : MqttPublisher Tx)
        (w : W)
        → ((q : MqttPublisher Tx) → Settled (attempt_all client d rfc3339 secs deadline turns q w))
        → Settled (attempt_all client d rfc3339 secs deadline ((instant, at, a) ∷ turns) p w)
    unfolding attempt_all set_state
    one_turn deadline instant at a turns p w later =
        elim (Bool-cases (eqb (deadline - instant) 0)) [
          | inl over ↦ rw (over, attempt_all) (inr (refl, refl))
          | inr early ↦ go a early
        ]
      where
        go :
            (b : Attempt)
            → eqb (deadline - instant) 0 ≡ false
            → Settled (attempt_all client d rfc3339 secs deadline ((instant, at, b) ∷ turns) p w)
        go con_ack early = rw (early, attempt_all) (inl (refl, on_connack-state at p w))
        go other early = rw (early, attempt_all) (later p)
        go failed early = rw (early, attempt_all) (later _)
        go elapsed early = rw (early, attempt_all) (inr (refl, refl))

    -- Whatever the event loop yields, the first connection comes to a result by the first turn that starts at the
    -- deadline or later, however many turns went before: it is true and the publisher is connected, or it is
    -- false and the publisher is reconnecting.
    pub try_connect-Settled :
        (deadline now : ℕ) (turns : List Turn) (instant : ℕ) (at : Clock) (a : Attempt)
        (p : MqttPublisher Tx) (w : W)
        → deadline ≤ instant
        → Settled
            (try_connect client d rfc3339 secs deadline now (turns ++ (instant, at, a) ∷ []) p w)
    unfolding try_connect
    try_connect-Settled deadline now turns instant at a p w late =
        go turns (set_state now connecting p)
      where
        go :
            (ts : List Turn) (q : MqttPublisher Tx)
            → Settled (attempt_all client d rfc3339 secs deadline (ts ++ (instant, at, a) ∷ []) q w)
        go [] q = gives_up deadline instant at a [] q w late
        go ((i, c, b) ∷ ts) q =
            one_turn deadline i c b (ts ++ (instant, at, a) ∷ []) q w (λ q'. go ts q')
