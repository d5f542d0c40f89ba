-- ===== src/Examples/Publisher.antt =====
-- The theorems on the publisher's loop, at concrete inputs: it connects, a charger's links change, the
-- connection is lost, and the channel of the events is closed.
use ocpp_proxy.Base.{◌+◌, ◌≤◌, max, ℕ, String, false, List, [], ◌∷◌, length, arith, refl}
use ocpp_proxy.Models.{connected}
use ocpp_proxy.Events.{state_change}
use ocpp_proxy.Mqtt.{MqttMessage, MqttPublisher, Client}
use ocpp_proxy.Mqtt.Snapshot.{no_state}
use ocpp_proxy.Mqtt.Handling.{Clock, con_ack, lost}
use ocpp_proxy.Mqtt.Run.{Turn, polled, received, channel_closed, run}
use ocpp_proxy.Mqtt.Bounds.Running.{connections, run_bound_lem}
use ocpp_proxy.Mqtt.Bounds.Overrun.{reconnections, run-reconnections}
use ocpp_proxy.Examples.Fixtures.{seconds}
use ocpp_proxy.Examples.Mqtt.{client, publisher, decoders, clock, rfc3339}

abbrev turns : List (Clock × Turn String)
turns =
    (clock, polled con_ack)
    ∷ (clock, received (state_change "CP1" connected connected))
    ∷ (clock, polled lost)
    ∷ (clock, channel_closed)
    ∷ []

run_bound_lem_example :
    length (run client decoders rfc3339 seconds turns publisher []).0.buffer
    ≤ max publisher.max_buffer_size 1 + connections turns
run_bound_lem_example =
    run_bound_lem client decoders rfc3339 seconds turns publisher [] (omega arith)

-- a client whose channel has no room
abbrev full_client : Client ℕ (List MqttMessage)
full_client = record client {
  try_publish = λ m w. (false, w);
  published-ok = λ m w h. absurd (cc);
  published-refused = λ m w h. refl;
}

run-reconnections_example :
    length (clock ∷ clock ∷ clock ∷ []) + length publisher.buffer
    ≤ length
        (run full_client decoders rfc3339 seconds
          (reconnections (clock ∷ clock ∷ clock ∷ []))
          publisher
          []).0.buffer
run-reconnections_example =
    run-reconnections full_client decoders rfc3339 seconds "CP1" (λ m w. refl)
      (clock ∷ clock ∷ clock ∷ []) publisher [] refl

-- a publisher whose buffer has room for "online" and for the snapshot of its charge point
abbrev roomy : MqttPublisher ℕ
roomy = record publisher { max_buffer_size = 4; charge_point_state = ("CP1", no_state) ∷ [] }
