-- ===== src/Events.antt =====
-- `MqttEvent` of src/forwarder.rs: what the forwarding path tells the MQTT publisher.
use ocpp_proxy.Base.{String}
use ocpp_proxy.Models.{OcppFrame, Direction, ConnectionState}
use ocpp_proxy.Command.{CommandResult}

pub data MqttEvent : Type 0 where
  message_forwarded :
      (charge_point_id : String) (frame : OcppFrame) (direction : Direction) (action : String)
      → MqttEvent
  state_change : (charge_point_id : String) (upstream downstream : ConnectionState) → MqttEvent
  command_result : (charge_point_id : String) (result : CommandResult) → MqttEvent
