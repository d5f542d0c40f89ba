-- ===== src/Mqtt/Snapshot.antt =====
-- `ChargePointState` of src/mqtt.rs: the retained snapshot of a charge point, and what a forwarded
-- message and a command's result do to it.
pub mod Sessions
use ocpp_proxy.Base.{
  ℕ, String, Bool, true, false, ◌&&◌, ◌==◌, Option, none, some, List, [], ◌∷◌, option_bind,
  option_or, Result, ok, err, if◌then◌else◌, get_elem?, eqb,
}
use ocpp_proxy.Base.Float
use ocpp_proxy.Base.Float.{F64}
use ocpp_proxy.Json.{
  Json, Members, as_array, as_object, get_str, get_i64, null, string, number, unsigned, negative,
  dict,
}
use ocpp_proxy.Json.Int.{ℤ, pos, negsuc, sub_i64}
use ocpp_proxy.Models.{OcppMessageType, call, call_result, call_error}
use ocpp_proxy.Command.{CommandResult, is_limit_result, is_accepted, status_str, float_json}

pub record ChargePointState : Type 0 where
  pub connector_status : Option String
  pub error_code : Option String
  pub transaction_id : Option ℤ
  pub id_tag : Option String
  pub meter_start_wh : Option ℤ
  pub last_meter_stop_wh : Option ℤ
  pub last_session_energy_wh : Option ℤ
  pub last_transaction_id : Option ℤ
  pub last_stop_reason : Option String
  pub last_stop_time : Option String
  pub current_limit_a : Option F64
  pub current_limit_status : Option String
  pub current_limit_updated : Option String
  pub last_updated : Option String

-- `ChargePointState::default`
abbrev pub no_state : ChargePointState
no_state = record {
  connector_status = none;
  error_code = none;
  transaction_id = none;
  id_tag = none;
  meter_start_wh = none;
  last_meter_stop_wh = none;
  last_session_energy_wh = none;
  last_transaction_id = none;
  last_stop_reason = none;
  last_stop_time = none;
  current_limit_a = none;
  current_limit_status = none;
  current_limit_updated = none;
  last_updated = none;
}

-- the derived `PartialEq`; a float that is no number differs from itself
abbrev same_int : ℤ → ℤ → Bool
same_int (pos m) (pos n) = eqb m n
same_int (negsuc m) (negsuc n) = eqb m n
same_int _ _ = false

abbrev same_option : {A : Type 0} → (A → A → Bool) → Option A → Option A → Bool
same_option same none none = true
same_option same (some a) (some b) = same a b
same_option same _ _ = false

abbrev same_text : String → String → Bool
same_text a b = a == b

unfoldable pub unchanged : ChargePointState → ChargePointState → Bool
unfolding Float.eq
unchanged s t =
    same_option same_text s.connector_status t.connector_status
    && same_option same_text s.error_code t.error_code
    && same_option same_int s.transaction_id t.transaction_id
    && same_option same_text s.id_tag t.id_tag
    && same_option same_int s.meter_start_wh t.meter_start_wh
    && same_option same_int s.last_meter_stop_wh t.last_meter_stop_wh
    && same_option same_int s.last_session_energy_wh t.last_session_energy_wh
    && same_option same_int s.last_transaction_id t.last_transaction_id
    && same_option same_text s.last_stop_reason t.last_stop_reason
    && same_option same_text s.last_stop_time t.last_stop_time
    && same_option Float.eq s.current_limit_a t.current_limit_a
    && same_option same_text s.current_limit_status t.current_limit_status
    && same_option same_text s.current_limit_updated t.current_limit_updated
    && same_option same_text s.last_updated t.last_updated

abbrev args_index : OcppMessageType → ℕ
args_index (call action) = 3
args_index _ = 2

-- `ocpp_args`
unfoldable pub ocpp_args : (String → Result String Json) → String → OcppMessageType → Option Members
ocpp_args from_str raw t = elim (from_str raw) [
  | err e ↦ none
  | ok parsed ↦
      option_bind (as_array parsed) λ arr. option_bind (get_elem? arr (args_index t)) as_object
]

abbrev pub energy : Option ℤ → Option ℤ → Option ℤ
energy (some stop) (some start) = some (sub_i64 stop start)
energy _ _ = none

-- the four branches of the `match` of `apply`
abbrev pub on_status : Members → ChargePointState → ChargePointState
on_status args s = record s {
  connector_status = option_or (get_str args "status") s.connector_status;
  error_code = option_or (get_str args "errorCode") s.error_code;
}

abbrev pub on_start : Members → ChargePointState → ChargePointState
on_start args s = record s {
  meter_start_wh = get_i64 args "meterStart";
  id_tag = get_str args "idTag";
}

abbrev pub on_started : Members → ChargePointState → ChargePointState
on_started args s = record s { transaction_id = get_i64 args "transactionId" }

abbrev pub on_stop : Members → ChargePointState → ChargePointState
on_stop args s = record s {
  last_meter_stop_wh = get_i64 args "meterStop";
  last_session_energy_wh = energy (get_i64 args "meterStop") s.meter_start_wh;
  last_transaction_id = option_or (get_i64 args "transactionId") s.transaction_id;
  last_stop_reason = get_str args "reason";
  last_stop_time = get_str args "timestamp";
  transaction_id = none;
  id_tag = none;
  meter_start_wh = none;
}

-- the state after the `match`, or nothing where the action is none of its cases
abbrev pub folded : String → OcppMessageType → Members → ChargePointState → Option ChargePointState
folded action (call a) args s =
    if action == "StatusNotification"
    then some (on_status args s)
    else if action == "StartTransaction"
    then some (on_start args s)
    else if action == "StopTransaction"
    then some (on_stop args s)
    else none
folded action call_result args s =
    if action == "StartTransaction" then some (on_started args s) else none
folded action call_error args s = none

-- stamps a state that has changed
abbrev stamped : String → ChargePointState → ChargePointState → Bool × ChargePointState
stamped stamp before s =
    if unchanged s before then (false, s) else (true, record s { last_updated = some stamp })

-- `ChargePointState::apply`: whether it changed, and the state; `stamp` is the time as a text
unfoldable pub apply :
    (String → Result String Json)
    → String
    → String
    → OcppMessageType
    → String
    → ChargePointState
    → Bool × ChargePointState
unfolding ocpp_args unchanged
apply from_str stamp action t raw s = elim (ocpp_args from_str raw t) [
  | none ↦ (false, s)
  | some args ↦ elim (folded action t args s) [ none ↦ (false, s) | some s' ↦ stamped stamp s s' ]
]

-- the limit that an accepted result stands for
abbrev pub standing : CommandResult → Option F64
standing r = elim r.action [
  | none ↦ none
  | some a ↦ if a == "SetChargingProfile" then r.applied_limit_a else none
]

-- `ChargePointState::apply_command_result`
unfoldable pub apply_command_result :
    String → CommandResult → ChargePointState → Bool × ChargePointState
unfolding unchanged is_limit_result
apply_command_result stamp r s =
    let noted = record s {
      current_limit_status = some (status_str r.status);
      current_limit_a = if is_accepted r.status then standing r else s.current_limit_a;
    } in
    if is_limit_result r
    then (if unchanged noted s
        then (false, noted)
        else (true, record noted { current_limit_updated = some stamp; last_updated = some stamp }))
    else (false, s)

abbrev int_json : ℤ → Json
int_json (pos n) = number (unsigned n)
int_json (negsuc n) = number (negative n)

abbrev or_null : {A : Type 0} → (A → Json) → Option A → Json
or_null f none = null
or_null f (some a) = f a

-- the derived `Serialize`
unfoldable pub state_json : ChargePointState → Json
state_json s = dict (
    ("connector_status", or_null string s.connector_status)
    ∷ ("error_code", or_null string s.error_code)
    ∷ ("transaction_id", or_null int_json s.transaction_id)
    ∷ ("id_tag", or_null string s.id_tag)
    ∷ ("meter_start_wh", or_null int_json s.meter_start_wh)
    ∷ ("last_meter_stop_wh", or_null int_json s.last_meter_stop_wh)
    ∷ ("last_session_energy_wh", or_null int_json s.last_session_energy_wh)
    ∷ ("last_transaction_id", or_null int_json s.last_transaction_id)
    ∷ ("last_stop_reason", or_null string s.last_stop_reason)
    ∷ ("last_stop_time", or_null string s.last_stop_time)
    ∷ ("current_limit_a", or_null float_json s.current_limit_a)
    ∷ ("current_limit_status", or_null string s.current_limit_status)
    ∷ ("current_limit_updated", or_null string s.current_limit_updated)
    ∷ ("last_updated", or_null string s.last_updated)
    ∷ [])
