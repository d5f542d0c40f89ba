-- ===== src/Mqtt/Reconnection.antt =====
-- What the broker is given on a new connection (src/mqtt.rs).
use ocpp_proxy.Base.{ℕ, ◌≤◌, String, true, List, [], ◌∷◌, ◌++◌, length, ◌≡◌, ok, err}
use ocpp_proxy.Models.Backoff
use ocpp_proxy.Models.Backoff.{Seconds}
use ocpp_proxy.Command.Payload.{Decoders}
use ocpp_proxy.Mqtt.{MqttMessage, MqttPublisher, Client, charge_point_state_topic}
use ocpp_proxy.Mqtt.Snapshot.{ChargePointState, state_json}
use ocpp_proxy.Mqtt.Handling.{Clock, republish_snapshots}

module _ {Tx W : Type 0} (client : Client Tx W) where
  open client use {published}

  -- The publisher has the bound `most` and these snapshots, and at most `n` messages wait.
  abbrev Holds : ℕ → List (String × ChargePointState) → ℕ → MqttPublisher Tx → Type 0
  Holds most ss n p =
      (p.max_buffer_size ≡ most) × (p.charge_point_state ≡ ss) × (length p.buffer ≤ n)

  -- the retained messages of the snapshots that can be written as JSON
  abbrev pub snapshot_messages : List (String × ChargePointState) → List MqttMessage
  snapshot_messages [] = []
  snapshot_messages ((id, s) ∷ ss) = elim (client.to_vec (state_json s)) [
    | err e ↦ snapshot_messages ss
    | ok payload ↦
        (let m : MqttMessage = record {
          topic = charge_point_state_topic id;
          payload = payload;
          retain = true;
        } in
          m)
        ∷ snapshot_messages ss
  ]

  module _ {Bytes : Type 0} (d : Decoders Bytes) (rfc3339 : ℕ → String) (secs : Seconds)
      (at : Clock) where
    -- what was published and what waits once the rest is republished
    abbrev in_order : List (String × ChargePointState) → MqttPublisher Tx × W → List MqttMessage
    in_order ss (p, w) =
        let r = republish_snapshots client d rfc3339 secs at ss p w in published r.1 ++ r.0.buffer
