-- ===== src/Main.antt =====
-- src/main.rs, with src/shutdown.rs and the level of src/logging.rs: what stops the start, what the
-- parts are given, and how long the end waits. The listeners and the clocks are arguments.
pub mod Outcomes
use ocpp_proxy.Base.{
  ℕ, ◌*◌, String, Bool, true, false, Option, none, some, List, [], ◌∷◌, Result, ok, err, map_err,
  if◌then◌else◌, eqb, leb, ◌==◌, is_err, not,
}
use ocpp_proxy.Base.Text.{format, trim}
use ocpp_proxy.Errors.{ProxyError}
use ocpp_proxy.Config.{LogLevel, debug, info, warning, error, MqttConfig, ProxyConfig}
use ocpp_proxy.State
use ocpp_proxy.State.{ConnectionStateManager, set_listener_bound}
use ocpp_proxy.Command.Router.{Router}
use ocpp_proxy.Mqtt.{MqttPublisher}
use ocpp_proxy.Mqtt.Startup.{MqttOptions, with_state_manager, with_command_router}
use ocpp_proxy.Mqtt.Startup
use ocpp_proxy.Session.Reconnect.{SessionConfig}
use ocpp_proxy.SnapshotStore
use ocpp_proxy.SnapshotStore.{SnapshotStore, SnapshotMap}
use ocpp_proxy.Upstream.{Addresses, Network}

-- `ShutdownCoordinator`: whether its token is cancelled
pub record ShutdownCoordinator : Type 0 where
  pub cancelled : Bool

-- `ShutdownCoordinator::new`, `is_shutting_down`, `initiate_shutdown`
abbrev pub new_coordinator : ShutdownCoordinator
new_coordinator = record { cancelled = false }

abbrev pub is_shutting_down : ShutdownCoordinator → Bool
is_shutting_down c = c.cancelled

abbrev pub initiate_shutdown : ShutdownCoordinator → ShutdownCoordinator
initiate_shutdown c = record c { cancelled = true }

pub data Signal : Type 0 where
  terminate interrupt : Signal

-- what `wait_for_shutdown_signal` returns
abbrev pub signal_name : Signal → String
signal_name terminate = "SIGTERM"
signal_name interrupt = "SIGINT"

-- the directive of `build_env_filter`, where `RUST_LOG` holds a valid filter or not
abbrev pub default_directive : LogLevel → String
default_directive debug = "debug"
default_directive info = "info"
default_directive warning = "warn"
default_directive error = "error"

abbrev pub build_env_filter : Option String → LogLevel → String
build_env_filter none level = default_directive level
build_env_filter (some filter) level = filter

abbrev pub second : ℕ
second = 1_000_000_000

-- `UPSTREAM_CONNECT_TIMEOUT`, `UPSTREAM_INITIAL_BACKOFF`, `UPSTREAM_RECONNECT_WINDOW`,
-- `MAX_BUFFER_DURATION`, `CALL_TRACKER_MAX_AGE`, and the configuration that sessions are given
unfoldable pub session_config : ProxyConfig → SessionConfig
session_config c = record {
  central_system_url = c.central_system_url;
  upstream_bind_address = c.upstream_bind_address;
  subprotocol = "ocpp1.6";
  message_buffer_size = c.buffers.message_buffer_size;
  max_buffer_duration = 30 * second;
  connect_timeout = 10 * second;
  initial_backoff = 2 * second;
  max_backoff = c.buffers.max_backoff_seconds * second;
  call_tracker_max_age = 300 * second;
  max_reconnect_window = 300 * second;
  charging = c.charging;
}

-- the snapshot store that `state_file` selects
unfoldable pub choose_store : String → SnapshotStore
choose_store state_file =
    if trim state_file == "" then SnapshotStore.disabled else SnapshotStore.new (some state_file)

module _ {Tx : Type 0} (read : String → Result String String) where
  -- the publisher that the MQTT thread makes
  unfoldable pub make_publisher :
      ProxyConfig
      → SnapshotMap
      → ConnectionStateManager
      → Router Tx
      → Result ProxyError (MqttOptions × MqttPublisher Tx)
  make_publisher c restored manager router =
      elim (Startup.new read {Tx = Tx} c.mqtt c.charge_point_id c.buffers.mqtt_buffer_size
        restored) [
          | err e ↦ err e
          | ok (options, p) ↦
              let shared = with_state_manager manager p in
              ok (
                options,
                (if c.charging.enabled
                    then with_command_router router c.charging shared
                    else shared),
              )
        ]

module _ {Ip Addr Socket Stream W : Type 0} (addresses : Addresses Ip Addr)
    (net : Network Ip Addr Socket Stream W) where
  -- `verify_local_address`
  unfoldable pub verify_local_address : Ip → W → Result String (Unit {0}) × W
  verify_local_address addr w =
      let (probe, w1) = net.new_v4 w in
      let (made, w2) = if addresses.is_ipv4 addr then net.new_v4 w1 else net.new_v6 w1 in
      elim probe [
        | err e ↦ (err (format ("cannot create socket: " ∷ e ∷ [])), w1)
        | ok s ↦ (elim made [
          | err e ↦ (err (format ("cannot create socket: " ∷ e ∷ [])), w2)
          | ok socket ↦
              let (bound, w3) = net.bind socket (addresses.with_port addr 0) w2 in
              (
                map_err (λ e. format ("is not an address on any local interface (" ∷ e ∷ ")" ∷ []))
                    bound,
                w3,
              )
        ])
      ]

-- What the program has when it serves chargers.
pub record Serving : Type 0 where
  pub config : ProxyConfig
  pub sessions : SessionConfig
  pub store : SnapshotStore
  pub manager : ConnectionStateManager
  pub health : Bool

pub data Start : Type 0 where
  exited : String → Start
  panicked : String → Start
  serving : Serving → Start

-- the check of the local address, if one is configured
abbrev pub check_address :
    (String → Result String (Unit {0})) → Option String → Result String (Unit {0})
check_address verify none = ok tt
check_address verify (some address) = verify address

-- the state of the program once the charger port is bound
abbrev pub ready : Result String (Unit {0}) → ProxyConfig → Serving
ready health c = record {
  config = c;
  sessions = session_config c;
  store = choose_store c.state_file;
  manager = set_listener_bound true State.new;
  health = not (is_err health);
}

-- `main` up to the ready state: the configuration that was loaded, the parser of URLs, the check of
-- the local address, the start of the publisher's thread, and the binding of the health port and of the
-- charger port
unfoldable pub begin :
    {Url : Type 0}
    → Result ProxyError ProxyConfig
    → (String → Result String Url)
    → (String → Result String (Unit {0}))
    → Result String (Unit {0})
    → Result String (Unit {0})
    → Result String (Unit {0})
    → Start
begin loaded parse verify spawned health listener = elim loaded [
  | err e ↦ exited "config"
  | ok c ↦ (elim (parse c.central_system_url) [
    | err e ↦ exited "central_system_url"
    | ok url ↦ (elim (check_address verify c.upstream_bind_address) [
      | err e ↦ exited "upstream_bind_address"
      | ok u ↦ (elim spawned [
        | err e ↦ panicked "failed to spawn MQTT thread"
        | ok t ↦ (elim listener [ err e ↦ exited "listener" | ok b ↦ serving (ready health c) ])
      ])
    ])
  ])
]

-- The wait for the sessions at the end, over its turns, each with the instant and the number of
-- connections; the result is how many are abandoned. It has none yet where the turns run out.
unfoldable pub drain : ℕ → List (ℕ × ℕ) → Option ℕ
drain deadline [] = none
drain deadline ((instant, remaining) ∷ turns) =
    let rest = drain deadline turns in
    if eqb remaining 0 then some 0 else if leb deadline instant then some remaining else rest
