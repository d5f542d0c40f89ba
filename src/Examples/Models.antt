-- ===== src/Examples/Models.antt =====
-- The theorems on frames, delays, states, the configuration and the registry, at concrete inputs.
use ocpp_proxy.Base.{
  arith, ℕ, String, true, false, none, some, [], ◌≡◌, ◌≢◌, ◌↔◌, ◌⊎◌, refl, Result, ok, lookup,
}
use ocpp_proxy.Base.Float
use ocpp_proxy.Base.Float.{F64}
use ocpp_proxy.Models.{parse, connected, disconnected}
use ocpp_proxy.Models.Frames.{Accepted, parse_iff}
use ocpp_proxy.State
use ocpp_proxy.State.Health.{health_handler, health_handler-503}
use ocpp_proxy.Config.{
  ProxyConfig, RawProxyConfig, MqttConfig, RawMqttConfig, Files, info, validate, load_from_path,
}
use ocpp_proxy.Config.Charging
use ocpp_proxy.Config.Checks.{IsValid, validate_iff}
use ocpp_proxy.Config.Loading.{IsComplete, load_from_path-IsValid}
use ocpp_proxy.Command.Router.{is_connected, Registration}
use ocpp_proxy.Downstream.{
  ActiveConnection, DownstreamState, register_connection, deregister_connection, route, unroute,
  leave,
}
use ocpp_proxy.Downstream.Registry.{current, leave_lem, overtaken}
use ocpp_proxy.Examples.Fixtures.{from_str, heartbeat_text, heartbeat_json, heartbeat}

parse_iff_example :
    (parse from_str 5 heartbeat_text ≡ ok heartbeat)
    ↔ Accepted 5 heartbeat_text heartbeat_json heartbeat
parse_iff_example = parse_iff from_str 5 heartbeat_text refl heartbeat

health_handler-503_example :
    (((health_handler 7 State.new).0 ≡ 503) ↔ (
      (State.new.listener_bound ≡ false)
      ⊎ ((State.new.downstream_state ≡ connected) × (State.new.upstream_state ≡ disconnected))))
    × (((health_handler 7 State.new).0 ≡ 503) ⊎ ((health_handler 7 State.new).0 ≡ 200))
health_handler-503_example = health_handler-503 7 State.new

abbrev pub files : Files
files = record { exists = λ p. true; opens = λ p. true }

abbrev pub config : ProxyConfig
config = record {
  central_system_url = "wss://central.example/ocpp";
  listen_port = 9000;
  listen_address = "0.0.0.0";
  upstream_bind_address = none;
  charge_point_id = some "CP1";
  health_port = 9090;
  mqtt = record {
    host = "broker";
    port = 8883;
    username = "proxy";
    password = "secret";
    ca_cert_path = none;
    client_cert_path = none;
    client_key_path = none;
  };
  logging = info;
  buffers = record { message_buffer_size = 100; mqtt_buffer_size = 500; max_backoff_seconds = 30 };
  state_file = "state.json";
  charging = Charging.default;
}

abbrev raw : RawProxyConfig
raw = record {
  central_system_url = some "wss://central.example/ocpp";
  listen_port = some 9000;
  mqtt = some (record {
    host = some "broker";
    port = some 8883;
    username = some "proxy";
    password = some "secret";
  });
}

abbrev pub show : F64 → String
show x = "0"

abbrev deserialised : Unit {0} → Result String ProxyConfig
deserialised u = ok config

validate_iff_example : (validate show files config ≡ []) ↔ IsValid files config
validate_iff_example = validate_iff show files config

load_from_path-IsValid_example :
    IsValid files config × (deserialised tt ≡ ok config) × IsComplete raw
unfolding load_from_path ocpp_proxy.Config.check_missing ocpp_proxy.Config.missing_required validate
    Charging.validate Float.is_finite Float.le Float.lt
load_from_path-IsValid_example =
    load_from_path-IsValid show files tt (λ u. some raw) deserialised config raw refl refl

abbrev hub : DownstreamState ℕ ℕ
hub = record {
  connections = [];
  state_manager = State.new;
  generation = 1;
  command_router = [];
  cancelled = [];
  mqtt_tx = [];
}

leave_lem_example :
    let s = (register_connection "CP1" 70 hub).1 in
    ((current "CP1" s ≡ some 1) × (current "CP1" (leave 9 "CP1" 1 s) ≡ none))
    ⊎ ((current "CP1" s ≢ some 1) × (leave 9 "CP1" 1 s ≡ s))
leave_lem_example = leave_lem 9 "CP1" 1 (register_connection "CP1" 70 hub).1

overtaken_example :
    let (g, s1) = register_connection "CP1" 70 hub in
    let (h, s2) = register_connection "CP1" 71 s1 in
    let s3 = route "CP1" g 80 (route "CP1" h 81 s2) in
    let s4 = (deregister_connection "CP1" g (unroute "CP1" g s3)).1 in
    let second : ActiveConnection ℕ = record { generation = h; cancel = 71 } in
    let channel : Registration ℕ = record { generation = g; tx = 80 } in
    (h ≢ g)
    × (lookup "CP1" s3.connections ≡ some second)
    × (lookup "CP1" s3.command_router ≡ some channel)
    × (lookup "CP1" s4.connections ≡ some second)
    × (is_connected "CP1" s4.command_router ≡ false)
overtaken_example = overtaken "CP1" 70 71 80 81 hub (omega arith)
