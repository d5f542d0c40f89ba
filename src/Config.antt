-- ===== src/Config.antt =====
-- src/config.rs: the configuration, its defaults and its validation. Addresses are texts. Printing a
-- float, the file system and the `config` crate are arguments.
pub mod Charging
pub mod Checks
pub mod Loading
pub mod Missing
pub mod Defaults
use text.Mathlib.Text.{starts_with}
use ocpp_proxy.Base.{
  ℕ, String, Bool, true, false, not, ◌&&◌, ◌||◌, Option, none, some, List, [], ◌∷◌, ◌++◌, Result,
  ok, err, guard, map_err, ◌>>=◌, ◌>>◌, is_some, is_empty, length, eqb, ltb, if◌then◌else◌,
}
use ocpp_proxy.Base.Text.{format, decimal, join}
use ocpp_proxy.Base.Float.{F64}
use ocpp_proxy.Errors.{ProxyError}
use ocpp_proxy.Errors
use Charging.{ChargingConfig, report}
use Charging

pub data LogLevel : Type 0 where
  debug info warning error : LogLevel

pub record MqttConfig : Type 0 where
  pub host : String
  pub port : ℕ
  pub username : String
  pub password : String
  pub ca_cert_path : Option String
  pub client_cert_path : Option String
  pub client_key_path : Option String

pub record BufferConfig : Type 0 where
  pub message_buffer_size : ℕ
  pub mqtt_buffer_size : ℕ
  pub max_backoff_seconds : ℕ

pub record ProxyConfig : Type 0 where
  pub central_system_url : String
  pub listen_port : ℕ
  pub listen_address : String
  pub upstream_bind_address : Option String
  pub charge_point_id : Option String
  pub health_port : ℕ
  pub mqtt : MqttConfig
  pub logging : LogLevel
  pub buffers : BufferConfig
  pub state_file : String
  pub charging : ChargingConfig

-- `MqttConfig::tls_enabled`
abbrev pub tls_enabled : MqttConfig → Bool
tls_enabled c = is_some c.ca_cert_path

-- `MqttConfig::client_auth_enabled`
abbrev pub client_auth_enabled : MqttConfig → Bool
client_auth_enabled c = is_some c.client_cert_path && is_some c.client_key_path

-- `Path::exists`, and whether the file opens
pub record Files : Type 0 where
  pub exists : String → Bool
  pub opens : String → Bool

-- one round of the loop over the certificate paths
abbrev pub check_path : Files → String → Option String → List String
check_path files name none = []
check_path files name (some path) =
    if not (files.exists path)
    then format (name ∷ " does not exist: " ∷ path ∷ []) ∷ []
    else if not (files.opens path)
    then format (name ∷ " exists but is not readable: " ∷ path ∷ []) ∷ []
    else []

abbrev pub differ : Bool → Bool → Bool
differ true b = not b
differ false b = b

-- `ProxyConfig::validate`
unfoldable pub validate : (F64 → String) → Files → ProxyConfig → List String
validate show files c =
    report (ltb c.listen_port 1024)
      (format ("listen_port must be between 1024 and 65535, got: " ∷ decimal c.listen_port ∷ []))
    ++ report (ltb c.health_port 1024)
        (format ("health_port must be between 1024 and 65535, got: " ∷ decimal c.health_port ∷ []))
    ++ report (eqb c.listen_port c.health_port) (
        format ("listen_port and health_port must differ, both are: " ∷ decimal c.listen_port ∷ []))
    ++ report
        (not (starts_with c.central_system_url "ws://")
          && not (starts_with c.central_system_url "wss://"))
        (format
          ("central_system_url must start with ws:// or wss://, got: " ∷ c.central_system_url ∷ []))
    ++ report (eqb c.mqtt.port 0) "mqtt.port must be between 1 and 65535"
    ++ check_path files "mqtt.ca_cert_path" c.mqtt.ca_cert_path
    ++ check_path files "mqtt.client_cert_path" c.mqtt.client_cert_path
    ++ check_path files "mqtt.client_key_path" c.mqtt.client_key_path
    ++ report (differ (is_some c.mqtt.client_cert_path) (is_some c.mqtt.client_key_path))
        "mqtt.client_cert_path and mqtt.client_key_path must be set together"
    ++ report (not (tls_enabled c.mqtt) && client_auth_enabled c.mqtt)
        "mqtt client certificates require mqtt.ca_cert_path to be set"
    ++ Charging.validate show c.charging

pub record RawMqttConfig : Type 0 where
  pub host : Option String
  pub port : Option ℕ
  pub username : Option String
  pub password : Option String

pub record RawProxyConfig : Type 0 where
  pub central_system_url : Option String
  pub listen_port : Option ℕ
  pub mqtt : Option RawMqttConfig

unfoldable pub missing_mqtt : Option RawMqttConfig → List String
missing_mqtt none = "mqtt.host" ∷ "mqtt.port" ∷ "mqtt.username" ∷ "mqtt.password" ∷ []
missing_mqtt (some m) =
    report (not (is_some m.host)) "mqtt.host"
    ++ report (not (is_some m.port)) "mqtt.port"
    ++ report (not (is_some m.username)) "mqtt.username"
    ++ report (not (is_some m.password)) "mqtt.password"

-- `RawProxyConfig::missing_required`
unfoldable pub missing_required : RawProxyConfig → List String
unfolding missing_mqtt
missing_required c =
    report (not (is_some c.central_system_url)) "central_system_url"
    ++ report (not (is_some c.listen_port)) "listen_port"
    ++ missing_mqtt c.mqtt

abbrev pub bullets : List String → List String
bullets [] = []
bullets (m ∷ ms) = format ("  - " ∷ m ∷ []) ∷ bullets ms

-- the check of the parameters that are missing, if the partial configuration can be read at all
unfoldable pub check_missing : Option RawProxyConfig → Result ProxyError (Unit {0})
check_missing none = ok tt
check_missing (some raw) =
    let missing = missing_required raw in
    guard (is_empty missing) (
      Errors.config (
        format (
          "Missing required configuration parameter"
          ∷ (if eqb (length missing) 1 then "" else "s")
          ∷ ":\n"
          ∷ join "\n" (bullets missing)
          ∷ [])))

module _ {Settings : Type 0} (show : F64 → String) (files : Files) where
  -- `ProxyConfig::load_from_path`. `settings` is the result of the `config` builder; the other two
  -- are `try_deserialize` at the two types.
  unfoldable pub load_from_path :
      Result String Settings
      → (Settings → Option RawProxyConfig)
      → (Settings → Result String ProxyConfig)
      → Result ProxyError ProxyConfig
  load_from_path built to_raw to_config = do
    settings ←
        map_err (λ e. Errors.config (format ("Failed to load configuration: " ∷ e ∷ []))) built
    check_missing (to_raw settings)
    c ←
        map_err (λ e. Errors.config (format ("Failed to deserialize configuration: " ∷ e ∷ [])))
          (to_config settings)
    guard (is_empty (validate show files c)) (
        Errors.config
          (format ("Configuration validation failed:\n" ∷ join "\n" (validate show files c) ∷ [])))
    ok c
