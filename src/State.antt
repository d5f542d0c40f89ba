-- ===== src/State.antt =====
-- src/state.rs: the states of the three connections, the message counters, and the health that
-- follows from them. The broadcast channel is the list of the events sent on it, oldest first.
pub mod Health
pub mod Events
use ocpp_proxy.Base.{ℕ, ◌+◌, ◌%◌, ◌^◌, Bool, true, false, not, List, [], ◌∷◌, ◌++◌, if◌then◌else◌}
use ocpp_proxy.Models.{
  ConnectionId, upstream, downstream, mqtt, ConnectionState, disconnected, connecting, connected,
  reconnecting, same_state, StateChange, Direction, charger_to_central, central_to_charger,
}

pub data HealthStatus : Type 0 where
  healthy idle degraded unhealthy : HealthStatus

pub record ConnectionMetrics : Type 0 where
  pub charger_to_central_forwarded : ℕ
  pub charger_to_central_dropped : ℕ
  pub central_to_charger_forwarded : ℕ
  pub central_to_charger_dropped : ℕ

pub record ConnectionStateManager : Type 0 where
  pub upstream_state : ConnectionState
  pub downstream_state : ConnectionState
  pub mqtt_state : ConnectionState
  pub listener_bound : Bool
  pub state_tx : List StateChange
  pub metrics : ConnectionMetrics

abbrev no_metrics : ConnectionMetrics
no_metrics = record {
  charger_to_central_forwarded = 0;
  charger_to_central_dropped = 0;
  central_to_charger_forwarded = 0;
  central_to_charger_dropped = 0;
}

-- `ConnectionStateManager::new`
unfoldable pub new : ConnectionStateManager
new = record {
  upstream_state = disconnected;
  downstream_state = disconnected;
  mqtt_state = disconnected;
  listener_bound = false;
  state_tx = [];
  metrics = no_metrics;
}

-- the field that a `ConnectionId` selects in `transition`
abbrev pub state_of : ConnectionId → ConnectionStateManager → ConnectionState
state_of upstream m = m.upstream_state
state_of downstream m = m.downstream_state
state_of mqtt m = m.mqtt_state

abbrev pub set_state_of :
    ConnectionId → ConnectionState → ConnectionStateManager → ConnectionStateManager
set_state_of upstream s m = record m { upstream_state = s }
set_state_of downstream s m = record m { downstream_state = s }
set_state_of mqtt s m = record m { mqtt_state = s }

-- `transition`, at the time `now`
unfoldable pub transition :
    ℕ → ConnectionId → ConnectionState → ConnectionStateManager → ConnectionStateManager
transition now conn new_state m =
    let old_state = state_of conn m in
    if same_state old_state new_state
    then m
    else let changed = set_state_of conn new_state m in
      record changed {
        state_tx =
            changed.state_tx
            ++ record {
              connection = conn;
              previous = old_state;
              current = new_state;
              timestamp = now;
            }
              ∷ [];
      }

-- `set_listener_bound`
unfoldable pub set_listener_bound : Bool → ConnectionStateManager → ConnectionStateManager
set_listener_bound bound m = record m { listener_bound = bound }

-- `health_status`
unfoldable pub health_status : ConnectionStateManager → HealthStatus
health_status m =
    if not m.listener_bound
    then unhealthy
    else if not (same_state m.downstream_state connected)
    then idle
    else elim m.upstream_state [
      | connected ↦ if same_state m.mqtt_state connected then healthy else degraded
      | connecting ↦ degraded
      | reconnecting ↦ degraded
      | disconnected ↦ unhealthy
    ]

-- `+=` on `u64`, as a release build computes it
abbrev pub add64 : ℕ → ℕ → ℕ
add64 a b = (a + b) % 2 ^ 64

count_forwarded : Direction → ConnectionMetrics → ConnectionMetrics
count_forwarded charger_to_central c = record c {
  charger_to_central_forwarded = add64 c.charger_to_central_forwarded 1;
}
count_forwarded central_to_charger c = record c {
  central_to_charger_forwarded = add64 c.central_to_charger_forwarded 1;
}

count_dropped : Direction → ℕ → ConnectionMetrics → ConnectionMetrics
count_dropped charger_to_central n c = record c {
  charger_to_central_dropped = add64 c.charger_to_central_dropped n;
}
count_dropped central_to_charger n c = record c {
  central_to_charger_dropped = add64 c.central_to_charger_dropped n;
}

-- `record_forwarded`
unfoldable pub record_forwarded : Direction → ConnectionStateManager → ConnectionStateManager
unfolding count_forwarded
record_forwarded direction m = record m { metrics = count_forwarded direction m.metrics }

-- `record_dropped`
unfoldable pub record_dropped : Direction → ℕ → ConnectionStateManager → ConnectionStateManager
unfolding count_dropped
record_dropped direction n m = record m { metrics = count_dropped direction n m.metrics }
