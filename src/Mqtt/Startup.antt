-- ===== src/Mqtt/Startup.antt =====
-- How the publisher is set up and first connects (`MqttPublisher::new` to `try_connect` of
-- src/mqtt.rs). The certificate files and what the event loop yields are arguments.
pub mod Connecting
pub mod Certificates
use ocpp_proxy.Base.{
  ℕ, ◌-◌, String, Bool, true, false, Option, none, some, List, [], ◌∷◌, Result, ok, err, map_err,
  if◌then◌else◌, is_some, eqb, option_map, ◌>>=◌,
}
use ocpp_proxy.Base.Text.{format}
use ocpp_proxy.Errors
use ocpp_proxy.Errors.{ProxyError}
use ocpp_proxy.Models.{disconnected, connecting, reconnecting}
use ocpp_proxy.Models.Backoff.{Seconds, with_defaults, next_delay}
use ocpp_proxy.State.{ConnectionStateManager}
use ocpp_proxy.Config.{MqttConfig}
use ocpp_proxy.Config.Charging.{ChargingConfig}
use ocpp_proxy.Command.Payload.{Decoders}
use ocpp_proxy.Command.Router.{Router}
use ocpp_proxy.Mqtt.{MqttMessage, MqttPublisher, Client, availability_topic}
use ocpp_proxy.Mqtt.Buffer.{set_state}
use ocpp_proxy.Mqtt.Handling.{Clock, on_connack}
use ocpp_proxy.SnapshotStore.{SnapshotMap}

-- `TlsConfiguration::Simple`: the CA certificate, and the client's certificate and key
pub record TlsConfiguration : Type 0 where
  pub ca : String
  pub client_auth : Option (String × String)

-- `MqttOptions`; the keepalive is in seconds
pub record MqttOptions : Type 0 where
  pub client_id : String
  pub host : String
  pub port : ℕ
  pub username : String
  pub password : String
  pub keep_alive : ℕ
  pub last_will : Option MqttMessage
  pub transport : Option TlsConfiguration

abbrev pub unread : String → String → String → ProxyError
unread what path e =
    Errors.tls (format ("Failed to read " ∷ what ∷ " at '" ∷ path ∷ "': " ∷ e ∷ []))

module _ (read : String → Result String String) where
  -- `fs::read`, with the error mapped
  abbrev pub read_file : String → String → Result ProxyError String
  read_file what path = map_err (unread what path) (read path)

  unfoldable pub read_client_auth :
      Option String → Option String → Result ProxyError (Option (String × String))
  read_client_auth (some cert_path) (some key_path) = do
    cert ← read_file "client certificate" cert_path
    key ← read_file "client key" key_path
    ok (some (cert, key))
  read_client_auth (some cert_path) none = ok none
  read_client_auth none key_path = ok none

  -- `build_tls_config`
  unfoldable pub build_tls_config : MqttConfig → Result ProxyError (Option TlsConfiguration)
  build_tls_config c = elim c.ca_cert_path [
    | none ↦ ok none
    | some ca_path ↦ read_file "CA certificate" ca_path >>= λ ca.
        read_client_auth c.client_cert_path c.client_key_path >>= λ auth.
        ok (some (record { ca = ca; client_auth = auth }))
  ]

  abbrev client_id : Option String → String
  client_id none = "ocpp-proxy"
  client_id (some id) = format ("ocpp-proxy-" ∷ id ∷ [])

  abbrev pub offline : String → MqttMessage
  offline id = record { topic = availability_topic id; payload = "offline"; retain = true }

  -- `MqttPublisher::new`; `restored` is what the snapshot store loads
  unfoldable pub new :
      {Tx : Type 0}
      → MqttConfig
      → Option String
      → ℕ
      → SnapshotMap
      → Result ProxyError (MqttOptions × MqttPublisher Tx)
  new c lwt_charge_point_id max_buffer_size restored = do
    transport ← build_tls_config c
    ok (
      record {
        client_id = client_id lwt_charge_point_id;
        host = c.host;
        port = c.port;
        username = c.username;
        password = c.password;
        keep_alive = 60;
        last_will = option_map offline lwt_charge_point_id;
        transport = transport;
      },
      record {
        lwt_charge_point_id = lwt_charge_point_id;
        buffer = [];
        max_buffer_size = max_buffer_size;
        state = disconnected;
        backoff = with_defaults 1_000_000_000 30_000_000_000;
        charge_point_state = restored;
        state_manager = none;
        flush_in_progress = none;
        command_router = none;
        charging = none;
        subscribe_pending = false;
        link_state = [];
      },
    )

module _ {Tx : Type 0} where
  -- `with_command_router`, `commands_enabled`, `with_state_manager`
  unfoldable pub with_command_router :
      Router Tx → ChargingConfig → MqttPublisher Tx → MqttPublisher Tx
  with_command_router router charging p = record p {
    command_router = some router;
    charging = some charging;
  }

  abbrev pub commands_enabled : MqttPublisher Tx → Bool
  commands_enabled p = is_some p.command_router

  unfoldable pub with_state_manager : ConnectionStateManager → MqttPublisher Tx → MqttPublisher Tx
  with_state_manager m p = record p { state_manager = some m }

-- What `time::timeout(remaining, eventloop.poll())` yields.
pub data Attempt : Type 0 where
  con_ack other failed elapsed : Attempt

module _ {Tx W Bytes : Type 0} (client : Client Tx W) (d : Decoders Bytes) (rfc3339 : ℕ → String)
    (secs : Seconds) (deadline : ℕ) where
  -- The loop of `try_connect`, over its turns, each with the instant at its head and the clocks after
  -- its poll. It has no result yet where the turns run out.
  unfoldable pub attempt_all :
      List (ℕ × Clock × Attempt) → MqttPublisher Tx → W → Option Bool × MqttPublisher Tx × W
  attempt_all [] p w = (none, p, w)
  attempt_all ((instant, at, a) ∷ turns) p w =
      let (up, w') = on_connack client d rfc3339 secs at p w in
      let down = set_state at.now reconnecting p in
      let rest = attempt_all turns p w in
      let retried = attempt_all turns (record p { backoff = (next_delay secs p.backoff).1 }) w in
      if eqb (deadline - instant) 0 then (some false, down, w) else elim a [
        | con_ack ↦ (some true, up, w')
        | other ↦ rest
        | failed ↦ retried
        | elapsed ↦ (some false, down, w)
      ]

  -- `try_connect`, begun at the time `now`
  unfoldable pub try_connect :
      ℕ → List (ℕ × Clock × Attempt) → MqttPublisher Tx → W → Option Bool × MqttPublisher Tx × W
  try_connect now turns p w = attempt_all turns (set_state now connecting p) w
