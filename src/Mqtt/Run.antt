-- ===== src/Mqtt/Run.antt =====
-- `MqttPublisher::run` of src/mqtt.rs: the loop over the connection to the broker and the events of the
-- sessions, until their channel is closed.
use ocpp_proxy.Base.{ℕ, String, List, [], ◌∷◌}
use ocpp_proxy.Models.Backoff.{Seconds}
use ocpp_proxy.Events.{MqttEvent}
use ocpp_proxy.Command.Payload.{Decoders}
use ocpp_proxy.Mqtt.{MqttPublisher, Client}
use ocpp_proxy.Mqtt.Handling.{Clock, Polled, handle_event, on_polled}

-- What one turn of the loop sees.
pub data Turn (Bytes : Type 0) : Type 0 where
  polled : Polled Bytes → Turn Bytes
  received : MqttEvent → Turn Bytes
  channel_closed : Turn Bytes

module _ {Tx W Bytes : Type 0} (client : Client Tx W) (d : Decoders Bytes) (rfc3339 : ℕ → String)
    (secs : Seconds) where
  -- `run`, over the turns that it sees, each with its clocks
  unfoldable pub run : List (Clock × Turn Bytes) → MqttPublisher Tx → W → MqttPublisher Tx × W
  run [] p w = (p, w)
  run ((at, polled e) ∷ ts) p w =
      let (p', w') = on_polled client d rfc3339 secs at e p w in run ts p' w'
  run ((at, received e) ∷ ts) p w =
      let (p', w') = handle_event client d rfc3339 secs at e p w in run ts p' w'
  run ((at, channel_closed) ∷ ts) p w = (p, w)
