-- ===== src/Config/Defaults.antt =====
-- What the configuration is where a setting is left out: the defaults of src/config.rs.
use text.Mathlib.Text.{starts_with}
use ocpp_proxy.Base.{
  ℕ, ◌≤◌, ◌<◌, String, Bool, true, false, Option, none, some, List, [], ◌≡◌, ◌≢◌, ◌↔◌, ◌⊎◌, refl,
  arith, ap, sym, ◌∙◌, subst, is_some, unwrap_or,
}
use ocpp_proxy.Base.Float.{F64}
use ocpp_proxy.Config.{
  LogLevel, debug, info, warning, error, MqttConfig, BufferConfig, ProxyConfig, Files, validate,
}
use ocpp_proxy.Config.Charging
use ocpp_proxy.Json.Int.{ℤ}
use ocpp_proxy.Config.Charging.{
  ChargingConfig, ChargingProfilePurpose, ChargingProfileKind, ChargingRateUnit, tx_default_profile,
}
use ocpp_proxy.Config.Checks.{IsReadable, IsSound, validate_iff}

-- `Display` of `LogLevel`
abbrev pub show_level : LogLevel → String
show_level debug = "DEBUG"
show_level info = "INFO"
show_level warning = "WARNING"
show_level error = "ERROR"

-- `default_health_port`, `default_listen_address`, `default_log_level`, `default_state_file`
abbrev pub default_health_port : ℕ
default_health_port = 8080

abbrev default_listen_address : String
default_listen_address = "0.0.0.0"

abbrev default_log_level : LogLevel
default_log_level = info

abbrev default_state_file : String
default_state_file = "/var/lib/ocpp-proxy/state.json"

-- `default_message_buffer`, `default_mqtt_buffer`, `default_max_backoff`
abbrev default_message_buffer : ℕ
default_message_buffer = 100

abbrev default_mqtt_buffer : ℕ
default_mqtt_buffer = 500

abbrev default_max_backoff : ℕ
default_max_backoff = 60

-- `Default for BufferConfig`
abbrev default_buffers : BufferConfig
default_buffers = record {
  message_buffer_size = default_message_buffer;
  mqtt_buffer_size = default_mqtt_buffer;
  max_backoff_seconds = default_max_backoff;
}

-- `BufferConfig`, `ChargingConfig` and `ProxyConfig` as a file sets them: what has a `serde(default)` may be left out.
pub record GivenBuffers : Type 0 where
  pub message_buffer_size : Option ℕ
  pub mqtt_buffer_size : Option ℕ
  pub max_backoff_seconds : Option ℕ

pub record GivenCharging : Type 0 where
  pub enabled : Option Bool
  pub max_limit_a : Option F64
  pub min_limit_a : Option F64
  pub connector_id : Option ℕ
  pub profile_id : Option ℤ
  pub stack_level : Option ℕ
  pub purpose : Option ChargingProfilePurpose
  pub profile_kind : Option ChargingProfileKind
  pub rate_unit : Option ChargingRateUnit
  pub number_phases : Option (Option ℕ)
  pub nominal_voltage_v : Option F64
  pub command_timeout_seconds : Option ℕ
  pub reapply_on_connect : Option Bool
  pub allowed_configuration_keys : Option (List String)

pub record Given : Type 0 where
  pub central_system_url : String
  pub listen_port : ℕ
  pub mqtt : MqttConfig
  pub listen_address : Option String
  pub upstream_bind_address : Option String
  pub charge_point_id : Option String
  pub health_port : Option ℕ
  pub logging : Option LogLevel
  pub buffers : Option GivenBuffers
  pub state_file : Option String
  pub charging : Option GivenCharging

abbrev fill_buffers : Option GivenBuffers → BufferConfig
fill_buffers none = default_buffers
fill_buffers (some b) = record {
  message_buffer_size = unwrap_or b.message_buffer_size default_message_buffer;
  mqtt_buffer_size = unwrap_or b.mqtt_buffer_size default_mqtt_buffer;
  max_backoff_seconds = unwrap_or b.max_backoff_seconds default_max_backoff;
}

-- the `serde(default)` attributes of `ChargingConfig`
abbrev fill_charging : Option GivenCharging → ChargingConfig
fill_charging none = Charging.default
fill_charging (some c) = record {
  enabled = unwrap_or c.enabled Charging.default.enabled;
  max_limit_a = unwrap_or c.max_limit_a Charging.default.max_limit_a;
  min_limit_a = unwrap_or c.min_limit_a Charging.default.min_limit_a;
  connector_id = unwrap_or c.connector_id Charging.default.connector_id;
  profile_id = unwrap_or c.profile_id Charging.default.profile_id;
  stack_level = unwrap_or c.stack_level Charging.default.stack_level;
  purpose = unwrap_or c.purpose Charging.default.purpose;
  profile_kind = unwrap_or c.profile_kind Charging.default.profile_kind;
  rate_unit = unwrap_or c.rate_unit Charging.default.rate_unit;
  number_phases = unwrap_or c.number_phases Charging.default.number_phases;
  nominal_voltage_v = unwrap_or c.nominal_voltage_v Charging.default.nominal_voltage_v;
  command_timeout_seconds =
      unwrap_or c.command_timeout_seconds Charging.default.command_timeout_seconds;
  reapply_on_connect = unwrap_or c.reapply_on_connect Charging.default.reapply_on_connect;
  allowed_configuration_keys =
      unwrap_or c.allowed_configuration_keys Charging.default.allowed_configuration_keys;
}

-- the `serde(default)` attributes of `ProxyConfig`
unfoldable pub fill : Given → ProxyConfig
fill g = record {
  central_system_url = g.central_system_url;
  listen_port = g.listen_port;
  listen_address = unwrap_or g.listen_address default_listen_address;
  upstream_bind_address = g.upstream_bind_address;
  charge_point_id = g.charge_point_id;
  health_port = unwrap_or g.health_port default_health_port;
  mqtt = g.mqtt;
  logging = unwrap_or g.logging default_log_level;
  buffers = fill_buffers g.buffers;
  state_file = unwrap_or g.state_file default_state_file;
  charging = fill_charging g.charging;
}

default-IsSound : IsSound Charging.default
unfolding ocpp_proxy.Base.Float.is_finite ocpp_proxy.Base.Float.le ocpp_proxy.Base.Float.lt
default-IsSound = record {
  max_finite = refl;
  max_positive = refl;
  max_ceiling = refl;
  min_finite = refl;
  min_positive = refl;
  ordered = refl;
  profile = (1001, refl, omega arith);
  site_wide = λ e. refl;
  phases = λ n e. ground arith;
  voltage_finite = refl;
  voltage = refl;
  timeout_least = omega arith;
  timeout_most = omega arith;
}

-- what is left of the checks where the other settings have their defaults
abbrev pub RequiredAreSound : Given → Type 0
RequiredAreSound g =
    (1024 ≤ g.listen_port)
    × (g.listen_port ≢ default_health_port)
    × ((starts_with g.central_system_url "ws://" ≡ true)
        ⊎ (starts_with g.central_system_url "wss://" ≡ true))
    × (0 < g.mqtt.port)

no_path : (files : Files) (o : Option String) → o ≡ none → IsReadable files o
no_path files o none_set p e = absurd (ground arith)

-- Where the health port and the charging settings are left out and the broker is plaintext, validation reports nothing
-- exactly when the listen port is unprivileged and not 8080, the Central System URL has a WebSocket scheme and the MQTT
-- port is not 0: the defaults are valid.
pub fill-validate :
    (show : F64 → String) (files : Files) (g : Given)
    → g.health_port ≡ none
    → g.charging ≡ none
    → g.mqtt.ca_cert_path ≡ none
    → g.mqtt.client_cert_path ≡ none
    → g.mqtt.client_key_path ≡ none
    → (validate show files (fill g) ≡ []) ↔ RequiredAreSound g
unfolding fill
fill-validate show files g health charging ca cert key =
    let port_is = ap (λ o. unwrap_or o default_health_port) health in
    let both = validate_iff show files (fill g) in
    (
      λ h. let v = both.0 h in (v.listen, λ e. v.distinct (e ∙ sym port_is), v.scheme, v.mqtt_port),
      λ (listen, distinct, scheme, port). both.1 (record {
        listen = listen;
        health = ground (arith, port_is);
        distinct = λ e. distinct (e ∙ port_is);
        scheme = scheme;
        mqtt_port = port;
        ca_cert = no_path files _ ca;
        client_cert = no_path files _ cert;
        client_key = no_path files _ key;
        together = ap is_some cert ∙ sym (ap is_some key);
        over_tls = λ e. absurd (ground (arith, ap is_some cert));
        charging = subst IsSound (sym (ap fill_charging charging)) default-IsSound;
      }),
    )
