-- ===== src/Command/Calls.antt =====
-- The OCPP calls that the proxy makes of commands (src/command.rs). Arithmetic, the printing of
-- times and the JSON printer are arguments.
pub mod Permits
use ocpp_proxy.Base.{
  ℕ, String, Bool, true, false, not, Option, none, some, List, [], ◌∷◌, ◌++◌, ◌==◌, ◌≡◌, refl, ap,
  ◌∙◌, Result, ok, err, guard, map_err, ◌>>=◌, ◌>>◌, any, is_empty, unwrap_or, if◌then◌else◌, arith,
  ◌↔◌, Result-cases, inl, inr,
}
use ocpp_proxy.Base.Text.{format, join}
use ocpp_proxy.Base.Float
use ocpp_proxy.Base.Float.{F64, Arithmetic}
use ocpp_proxy.Json.{Json, number, string, array, value_then, no_values, unsigned, list, dict, nat}
use ocpp_proxy.Json.Int.{ℤ, pos, negsuc}
use ocpp_proxy.Json
use ocpp_proxy.Config.Charging.{
  ChargingConfig, amperes, watts, absolute, relative, purpose_str, kind_str, unit_str,
}
use ocpp_proxy.Command.{
  ProxyCommand, set_current_limit, clear_current_limit, get_configuration, change_configuration,
  trigger_message, get_composite_schedule, action_of, CommandRequest, PreparedCall, float_json,
  strings,
}
use ocpp_proxy.Command.Limits.{ResolvedLimit, round_tenth, resolve_limit}

-- `TRIGGERABLE_MESSAGES`
abbrev pub triggerable_messages : List String
triggerable_messages =
    "BootNotification" ∷ "DiagnosticsStatusNotification" ∷ "FirmwareStatusNotification"
    ∷ "Heartbeat" ∷ "MeterValues" ∷ "StatusNotification" ∷ []

abbrev int : ℤ → Json
int (pos n) = number (unsigned n)
int (negsuc n) = number (Json.negative n)

abbrev optional : String → Option ℕ → List (String × Json)
optional key none = []
optional key (some n) = (key, nat n) ∷ []

-- `json!([2, unique_id, action, payload])`
abbrev pub call_json : String → String → Json → Json
call_json unique_id action payload = list (nat 2 ∷ string unique_id ∷ string action ∷ payload ∷ [])

-- `debug` prints a text in quotes, as `{:?}` does.
module _ (a : Arithmetic) (rfc3339 : ℕ → String) (debug : String → String) where
  -- the limit on the wire: amperes, or the watts of all phases
  wire_limit : ChargingConfig → F64 → F64
  wire_limit config limit_a = elim config.rate_unit [
    | amperes ↦ limit_a
    | watts ↦ round_tenth a (
        a.mul (a.mul limit_a config.nominal_voltage_v)
          (a.of_nat (unwrap_or config.number_phases 1)))
  ]

  -- `set_charging_profile_payload`
  unfoldable pub set_charging_profile_payload : ChargingConfig → F64 → ℕ → Json
  unfolding wire_limit
  set_charging_profile_payload config limit_a now =
      let period = dict (
        ("startPeriod", nat 0)
        ∷ ("limit", float_json (wire_limit config limit_a))
        ∷ optional "numberPhases" config.number_phases) in
      let schedule = dict (
        ("chargingRateUnit", string (unit_str config.rate_unit))
        ∷ ("chargingSchedulePeriod", list (period ∷ []))
        ∷ (elim config.profile_kind [
          | absolute ↦ ("startSchedule", string (rfc3339 now)) ∷ []
          | relative ↦ []
        ])) in
      dict (
        ("connectorId", nat config.connector_id)
        ∷ (
          "csChargingProfiles",
          dict (
              ("chargingProfileId", int config.profile_id)
              ∷ ("stackLevel", nat config.stack_level)
              ∷ ("chargingProfilePurpose", string (purpose_str config.purpose))
              ∷ ("chargingProfileKind", string (kind_str config.profile_kind))
              ∷ ("chargingSchedule", schedule)
              ∷ []),
        )
        ∷ [])

  -- `clear_charging_profile_payload`
  unfoldable pub clear_charging_profile_payload : ChargingConfig → Json
  clear_charging_profile_payload config = dict (
      ("id", int config.profile_id)
      ∷ ("connectorId", nat config.connector_id)
      ∷ ("chargingProfilePurpose", string (purpose_str config.purpose))
      ∷ ("stackLevel", nat config.stack_level)
      ∷ [])

  -- the `match` of `prepare_call`: the payload, the applied limit and the note
  unfoldable pub payload_of :
      ChargingConfig → ℕ → ProxyCommand → Result String (Json × Option F64 × Option String)
  payload_of config now (set_current_limit limit_a) = do
    resolved ← resolve_limit a config limit_a
    ok (
      set_charging_profile_payload config resolved.applied_a now,
      some resolved.applied_a,
      resolved.detail,
    )
  payload_of config now clear_current_limit = ok (clear_charging_profile_payload config, none, none)
  payload_of config now (get_configuration keys) =
      ok ((if is_empty keys then dict [] else dict (("key", list (strings keys)) ∷ [])), none, none)
  payload_of config now (change_configuration key value) = do
    guard (any (λ k. k == key) config.allowed_configuration_keys) (
        format (
          "configuration key " ∷ debug key ∷ " is not in charging.allowed_configuration_keys" ∷ []))
    ok (dict (("key", string key) ∷ ("value", string value) ∷ []), none, none)
  payload_of config now (trigger_message requested_message connector_id) = do
    guard (any (λ m. m == requested_message) triggerable_messages) (
        format (
          "requested_message must be one of "
          ∷ join ", " triggerable_messages
          ∷ ", got "
          ∷ debug requested_message
          ∷ []))
    ok (
      dict (("requestedMessage", string requested_message) ∷ optional "connectorId" connector_id),
      none,
      none,
    )
  payload_of config now (get_composite_schedule connector_id duration_s) = ok (
    dict (
        ("connectorId", nat (unwrap_or connector_id config.connector_id))
        ∷ ("duration", nat duration_s)
        ∷ ("chargingRateUnit", string (unit_str config.rate_unit))
        ∷ []),
    none,
    none,
  )

  -- `prepare_call`
  unfoldable pub prepare_call :
      (Json → Result String String)
      → ChargingConfig
      → CommandRequest
      → String
      → ℕ
      → Result String PreparedCall
  prepare_call to_string config request unique_id now = do
    prepared ← payload_of config now request.command
    raw ←
        map_err (λ e. format ("could not serialise the OCPP frame: " ∷ e ∷ []))
          (to_string (call_json unique_id (action_of request.command) prepared.0))
    ok (record {
      unique_id = unique_id;
      action = action_of request.command;
      raw = raw;
      applied_limit_a = prepared.1;
      detail = prepared.2;
    })
