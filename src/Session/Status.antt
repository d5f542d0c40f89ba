-- ===== src/Session/Status.antt =====
-- `set_upstream_state` and `publish_status` of src/session.rs.
use ocpp_proxy.Base.{ℕ, String, if◌then◌else◌}
use ocpp_proxy.Models.{ConnectionState, upstream, same_state}
use ocpp_proxy.State.{ConnectionStateManager, transition}
use ocpp_proxy.Events.{state_change}
use ocpp_proxy.Session.Wire.{Wire}

module _ {W : Type 0} (wire : Wire W) (id : String) where
  -- `publish_status`
  unfoldable pub publish_status : ConnectionState → ConnectionState → W → W
  publish_status up down w = wire.try_send (state_change id up down) w

  -- `set_upstream_state`, at the time `now`
  unfoldable pub set_upstream_state :
      ℕ → ConnectionState → ConnectionStateManager → W → ConnectionStateManager × W
  unfolding publish_status
  set_upstream_state now new_state m w =
      let changed = transition now upstream new_state m in
      if same_state m.upstream_state new_state
      then (m, w)
      else (changed, publish_status changed.upstream_state changed.downstream_state w)
