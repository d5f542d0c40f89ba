-- ===== src/Mqtt/Incoming.antt =====
-- What becomes of a command that arrives over MQTT (src/mqtt.rs).
use ocpp_proxy.Base.{
  ℕ, String, some, ◌≡◌, ◌≢◌, refl, false, ap, ◌∙◌, ◌++◌, err, push_bounded, ◌⊎◌, inl, inr, arith,
  ok, Result-cases, Option-cases, lookup,
}
use ocpp_proxy.Models.Backoff.{Seconds}
use ocpp_proxy.Command.{CommandRequest, CommandResult, accepted, for_request, invalid_payload}
use ocpp_proxy.Command.Topics.{CommandTopic, parse_command_topic}
use ocpp_proxy.Command.Payload.{Decoders, parse_command_payload}
use ocpp_proxy.Command.Router.{
  Router, Registration, SendOutcome, DispatchError, delivered, full, closed, answer, dispatch,
  not_connected, queue_full,
}
use ocpp_proxy.Command.{result_json}
use ocpp_proxy.Command.Topics.{command_result_topic}
use ocpp_proxy.Mqtt.{MqttMessage}
use ocpp_proxy.Mqtt.Snapshot.{apply_command_result}
use ocpp_proxy.Mqtt.Delivery.{enqueue_lem}
use ocpp_proxy.Mqtt.Handling.{enqueue_json, update_snapshot}
use ocpp_proxy.Mqtt.{MqttPublisher, Client}
use ocpp_proxy.Mqtt.Handling.{
  Clock, handle_incoming_publish, dispatch_command, publish_command_result,
}

SendOutcome-cases : (o : SendOutcome) → (o ≡ delivered) ⊎ ((o ≡ full) ⊎ (o ≡ closed))
SendOutcome-cases delivered = inl refl
SendOutcome-cases full = inr (inl refl)
SendOutcome-cases closed = inr (inr refl)

module _ {Tx W Bytes : Type 0} (client : Client Tx W) (d : Decoders Bytes) (rfc3339 : ℕ → String)
    (secs : Seconds) (at : Clock) where
  open client use {published}

  dispatch-published :
      (id : String) (request : CommandRequest) (router : Router Tx) (w : W)
      → published (dispatch client.try_send id request router w).1 ≡ published w
  unfolding dispatch
  dispatch-published id request router w = elim (Option-cases (lookup id router)) [
    | inl e ↦ rw (e, dispatch) refl
    | inr (reg, e) ↦ rw (e, dispatch) (client.published-send reg.tx request w)
  ]

  -- The request was put into the channel of the session that is registered for the charger, and the publisher
  -- stays as it is.
  abbrev pub Handed : String → CommandRequest → MqttPublisher Tx → W → MqttPublisher Tx × W → Type 0
  Handed id request p w r =
      (router : Router Tx) × (reg : Registration Tx) × (p.command_router ≡ some router)
      × (lookup id router ≡ some reg)
      × ((client.try_send reg.tx request w).0 ≡ delivered)
      × (r ≡ (p, (client.try_send reg.tx request w).1))

  -- A message is queued: it comes after all that was published or waits, but for the oldest message where
  -- the buffer is full.
  abbrev pub Queued : MqttMessage → MqttPublisher Tx → W → MqttPublisher Tx × W → Type 0
  Queued m p w r =
      published r.1 ++ r.0.buffer ≡ published w ++ push_bounded p.max_buffer_size m p.buffer

  -- The result is queued on the charger's result topic, where it can be written as JSON.
  abbrev pub ResultQueued :
      String → CommandResult → MqttPublisher Tx → W → MqttPublisher Tx × W → Type 0
  ResultQueued id given p w r =
      ((payload : String) × (client.to_vec (result_json given) ≡ ok payload)
        × (let m : MqttMessage = record {
          topic = command_result_topic id;
          payload = payload;
          retain = false;
        } in
            Queued m p w r))
      ⊎ ((e : String) × (client.to_vec (result_json given) ≡ err e))

  -- A result other than accepted is queued, and then the charger's snapshot is updated by it.
  abbrev pub Answered : String → MqttPublisher Tx → W → MqttPublisher Tx × W → Type 0
  Answered id p w r =
      (given : CommandResult) × (queued : MqttPublisher Tx × W) × (given.status ≢ accepted)
      × ResultQueued id given p w queued
      × (r
          ≡ update_snapshot client d rfc3339 secs at id (apply_command_result at.stamp given)
              queued.0 queued.1)

  enqueue_json-ResultQueued :
      (id : String) (given : CommandResult) (p : MqttPublisher Tx) (w between : W)
      → published between ≡ published w
      → ResultQueued id given p w (
          enqueue_json client d rfc3339 secs at
            (command_result_topic id)
            (result_json given)
            false
            p
            between)
  unfolding enqueue_json
  enqueue_json-ResultQueued id given p w between same =
      elim (Result-cases (client.to_vec (result_json given))) [
        | inr (e, f) ↦ inr (e, f)
        | inl (payload, e) ↦
            let m : MqttMessage = record {
              topic = command_result_topic id;
              payload = payload;
              retain = false;
            } in
            rw (e, enqueue_json)
              (inl (
                payload,
                refl,
                (enqueue_lem client m p between).0
                    ∙ ap (λ g. g ++ push_bounded p.max_buffer_size m p.buffer) same,
              ))
      ]

  publish-Answered :
      (id : String) (given : CommandResult) (p : MqttPublisher Tx) (w between : W)
      → given.status ≢ accepted
      → published between ≡ published w
      → Answered id p w (publish_command_result client d rfc3339 secs at id given p between)
  unfolding publish_command_result
  publish-Answered id given p w between bad same = (
    given,
    enqueue_json client d rfc3339 secs at (command_result_topic id) (result_json given) false p
        between,
    bad,
    enqueue_json-ResultQueued id given p w between same,
    refl,
  )

  dispatch-cases :
      (id : String) (request : CommandRequest) (router : Router Tx) (w : W)
      → ((reg : Registration Tx) × (lookup id router ≡ some reg)
          × ((client.try_send reg.tx request w).0 ≡ delivered)
          × (dispatch client.try_send id request router w
              ≡ (ok tt, (client.try_send reg.tx request w).1)))
        ⊎ ((e : DispatchError) × ((dispatch client.try_send id request router w).0 ≡ err e))
  unfolding dispatch answer
  dispatch-cases id request router w = elim (Option-cases (lookup id router)) [
    | inl e ↦ rw (e, dispatch) (inr (_, refl))
    | inr (reg, e) ↦ elim (SendOutcome-cases (client.try_send reg.tx request w).0) [
      | inl sent ↦ rw (e, sent, dispatch) (inl (reg, refl, sent, refl))
      | inr (inl sent) ↦ rw (e, sent, dispatch) (inr (_, refl))
      | inr (inr sent) ↦ rw (e, sent, dispatch) (inr (_, refl))
    ]
  ]

  dispatch_command_lem :
      (id : String) (request : CommandRequest) (p : MqttPublisher Tx) (w : W)
      → let r = dispatch_command client d rfc3339 secs at id request p w in
        Handed id request p w r ⊎ Answered id p w r
  unfolding dispatch_command for_request
  dispatch_command_lem id request p w = elim (Option-cases p.command_router) [
    | inl off ↦ simp (off, dispatch_command) (inr (publish-Answered id _ p w w (ground arith) refl))
    | inr (router, on) ↦ elim (dispatch-cases id request router w) [
      | inl (reg, there, sent, e) ↦
          simp (on, e, dispatch_command) (inl (router, reg, refl, there, sent, refl))
      | inr (not_connected, lost) ↦
          simp (on, lost, dispatch_command)
            (inr
              (publish-Answered id _ p w _ (ground arith) (dispatch-published id request router w)))
      | inr (queue_full, lost) ↦
          simp (on, lost, dispatch_command)
            (inr
              (publish-Answered id _ p w _ (ground arith) (dispatch-published id request router w)))
    ]
  ]

  -- A message on a command topic does not vanish: it is a request that is put into the channel of the session
  -- that is registered for the charger of the topic, or a result other than accepted is queued behind all
  -- other messages on the charger's result topic, unless that result can not be written as JSON.
  pub handle_incoming_publish_lem :
      (topic : String) (payload : Bytes) (id : String) (kind : CommandTopic) (p : MqttPublisher Tx)
      (w : W)
      → parse_command_topic topic ≡ some (id, kind)
      → let r = handle_incoming_publish client d rfc3339 secs at topic payload p w in
        ((request : CommandRequest) × (parse_command_payload d at.now at.millis kind payload
            ≡ ok request)
          × Handed id request p w r)
        ⊎ Answered id p w r
  unfolding handle_incoming_publish invalid_payload
  handle_incoming_publish_lem topic payload id kind p w e =
      elim (Result-cases (parse_command_payload d at.now at.millis kind payload)) [
        | inl (request, good) ↦ elim (dispatch_command_lem id request p w) [
          | inl handed ↦ rw (e, good, handle_incoming_publish) (inl (request, refl, handed))
          | inr answered ↦ rw (e, good, handle_incoming_publish) (inr answered)
        ]
        | inr (reason, bad) ↦
            rw (e, bad, handle_incoming_publish)
              (inr (publish-Answered id _ p w w (ground arith) refl))
      ]
