-- ===== src/Mqtt.antt =====
-- src/mqtt.rs: the publisher, its messages and their topics. The MQTT client and its request channel
-- are an interface.
pub mod Snapshot
pub mod Buffer
pub mod Handling
pub mod Delivery
pub mod Standing
pub mod Incoming
pub mod Startup
pub mod Run
pub mod Reconnection
pub mod Bounds
use ocpp_proxy.Base.{
  ℕ, String, Bool, true, false, Option, none, some, List, [], ◌∷◌, ◌++◌, ◌≡◌, Result,
}
use ocpp_proxy.Base.Text.{format}
use ocpp_proxy.Json.{Json}
use ocpp_proxy.Models.{
  OcppMessageType, call, call_result, call_error, Direction, charger_to_central, central_to_charger,
  ConnectionState, connected, disconnected, reconnecting, connecting,
}
use ocpp_proxy.Models.Backoff.{ExponentialBackoff}
use ocpp_proxy.State.{ConnectionStateManager}
use ocpp_proxy.Config.Charging.{ChargingConfig}
use ocpp_proxy.Command.{CommandRequest}
use ocpp_proxy.Command.Router.{Router, SendOutcome}
use ocpp_proxy.Mqtt.Snapshot.{ChargePointState}

-- `MqttMessage`; every message has the quality of service 1. The payload is its text.
pub record MqttMessage : Type 0 where
  pub topic : String
  pub payload : String
  pub retain : Bool

-- `message_type_str`, `direction_str`, `connection_state_str`
abbrev pub message_type_str : OcppMessageType → String
message_type_str (call action) = "Call"
message_type_str call_result = "CallResult"
message_type_str call_error = "CallError"

abbrev pub direction_str : Direction → String
direction_str charger_to_central = "charger"
direction_str central_to_charger = "central_system"

abbrev pub connection_state_str : ConnectionState → String
connection_state_str connected = "connected"
connection_state_str disconnected = "disconnected"
connection_state_str reconnecting = "reconnecting"
connection_state_str connecting = "connecting"

-- `availability_topic`, `message_topic`, `charge_point_state_topic`, `status_topic`
abbrev pub availability_topic : String → String
availability_topic id = format ("ocpp/" ∷ id ∷ "/availability" ∷ [])

abbrev pub message_topic : String → String → String → String
message_topic id direction action = format ("ocpp/" ∷ id ∷ "/" ∷ direction ∷ "/" ∷ action ∷ [])

abbrev pub charge_point_state_topic : String → String
charge_point_state_topic id = format ("ocpp/" ∷ id ∷ "/state" ∷ [])

abbrev pub status_topic : String → String
status_topic id = format ("ocpp/" ∷ id ∷ "/status" ∷ [])

-- the last known states of a charger's two links
pub record LinkState : Type 0 where
  pub upstream : ConnectionState
  pub downstream : ConnectionState

-- `MqttPublisher`; the client and the store are in `Client`. `Tx` is the sending end of a session's
-- command channel.
pub record MqttPublisher (Tx : Type 0) : Type 0 where
  pub lwt_charge_point_id : Option String
  pub buffer : List MqttMessage
  pub max_buffer_size : ℕ
  pub state : ConnectionState
  pub backoff : ExponentialBackoff
  pub charge_point_state : List (String × ChargePointState)
  pub state_manager : Option ConnectionStateManager
  pub flush_in_progress : Option ℕ
  pub command_router : Option (Router Tx)
  pub charging : Option ChargingConfig
  pub subscribe_pending : Bool
  pub link_state : List (String × LinkState)

-- The client's request channel, the store's file, and the command channels. What the publisher relies
-- on is that an accepted message is published after the earlier ones, and a refused one is not.
pub record Client (Tx W : Type 0) : Type 0 where
  pub try_publish : MqttMessage → W → Bool × W
  pub try_subscribe : W → Bool × W
  pub save : List (String × ChargePointState) → W → W
  pub try_send : Tx → CommandRequest → W → SendOutcome × W
  pub to_vec : Json → Result String String
  pub published : W → List MqttMessage
  pub published-ok :
      (m : MqttMessage) (w : W)
      → (try_publish m w).0 ≡ true
      → published (try_publish m w).1 ≡ published w ++ m ∷ []
  pub published-refused :
      (m : MqttMessage) (w : W)
      → (try_publish m w).0 ≡ false
      → published (try_publish m w).1 ≡ published w
  pub published-subscribe : (w : W) → published (try_subscribe w).1 ≡ published w
  pub published-save :
      (s : List (String × ChargePointState)) (w : W) → published (save s w) ≡ published w
  pub published-send :
      (t : Tx) (r : CommandRequest) (w : W) → published (try_send t r w).1 ≡ published w
