-- ===== src/State/Health.antt =====
-- Health and its report: `health_status` against the documented rules, the state changes that are
-- broadcast, and the answer of `GET /health` (src/health.rs).
use ocpp_proxy.Base.{◌⊎◌, ℕ, Bool, false, ◌≡◌, ◌↔◌, arith}
use ocpp_proxy.Models.{ConnectionState, disconnected, connected}
use ocpp_proxy.State.{
  HealthStatus, healthy, idle, degraded, unhealthy, ConnectionMetrics, ConnectionStateManager,
  health_status,
}

pub record HealthResponse : Type 0 where
  pub status : HealthStatus
  pub upstream_state : ConnectionState
  pub downstream_state : ConnectionState
  pub mqtt_state : ConnectionState
  pub listening : Bool
  pub uptime_seconds : ℕ
  pub messages : ConnectionMetrics

-- the HTTP status of a response, as `health_handler` chooses it
abbrev http_status : HealthStatus → ℕ
http_status healthy = 200
http_status idle = 200
http_status degraded = 200
http_status unhealthy = 503

-- `health_handler`, `uptime` seconds after the start
unfoldable pub health_handler : ℕ → ConnectionStateManager → ℕ × HealthResponse
unfolding health_status
health_handler uptime m =
    let response : HealthResponse = record {
      status = health_status m;
      upstream_state = m.upstream_state;
      downstream_state = m.downstream_state;
      mqtt_state = m.mqtt_state;
      listening = m.listener_bound;
      uptime_seconds = uptime;
      messages = m.metrics;
    } in
    (http_status response.status, response)

-- The endpoint answers 503 exactly when the listener is not bound, or a charger is connected and
-- the upstream is disconnected; it answers 200 otherwise, whatever the state of MQTT.
pub health_handler-503 :
    (uptime : ℕ) (m : ConnectionStateManager)
    → (((health_handler uptime m).0 ≡ 503) ↔ (
        (m.listener_bound ≡ false)
        ⊎ ((m.downstream_state ≡ connected) × (m.upstream_state ≡ disconnected))))
      × (((health_handler uptime m).0 ≡ 503) ⊎ ((health_handler uptime m).0 ≡ 200))
unfolding health_handler
health_handler-503 uptime m = (ground arith, ground arith)
