-- ===== src/Command.antt =====
-- src/command.rs: the commands that the proxy accepts over MQTT, and their results. Times enter as
-- arguments: `stamp` is the text of a result's timestamp, `millis` the clock in an id.
pub mod Topics
pub mod Payload
pub mod Calls
pub mod Limits
pub mod Answers
pub mod Queue
pub mod Router
use ocpp_proxy.Base.{
  ℕ, String, Bool, true, false, ◌||◌, ◌==◌, Option, none, some, List, [], ◌∷◌, Result, ok, err,
  if◌then◌else◌, option_or, option_map,
}
use ocpp_proxy.Base.Text.{format, decimal}
use ocpp_proxy.Base.Float
use ocpp_proxy.Base.Float.{F64}
use ocpp_proxy.Json.{Json, null, string, list, dict, nat, f64}

pub data ProxyCommand : Type 0 where
  set_current_limit : F64 → ProxyCommand
  clear_current_limit : ProxyCommand
  get_configuration : List String → ProxyCommand
  change_configuration : (key value : String) → ProxyCommand
  trigger_message : (requested_message : String) → (connector_id : Option ℕ) → ProxyCommand
  get_composite_schedule : (connector_id : Option ℕ) → (duration_s : ℕ) → ProxyCommand

-- `ProxyCommand::action`
abbrev pub action_of : ProxyCommand → String
action_of (set_current_limit a) = "SetChargingProfile"
action_of clear_current_limit = "ClearChargingProfile"
action_of (get_configuration keys) = "GetConfiguration"
action_of (change_configuration k v) = "ChangeConfiguration"
action_of (trigger_message m c) = "TriggerMessage"
action_of (get_composite_schedule c d) = "GetCompositeSchedule"

-- `ProxyCommand::is_limit_command`
abbrev pub is_limit_command : ProxyCommand → Bool
is_limit_command (set_current_limit a) = true
is_limit_command clear_current_limit = true
is_limit_command _ = false

pub data CommandSource : Type 0 where
  from_mqtt reapply : CommandSource

pub record CommandRequest : Type 0 where
  pub id : String
  pub command : ProxyCommand
  pub source : CommandSource
  pub issued_at : ℕ

-- `CommandRequest::new`, at the time `now`
abbrev pub new_request : ℕ → String → ProxyCommand → CommandSource → CommandRequest
new_request now id command source = record {
  id = id;
  command = command;
  source = source;
  issued_at = now;
}

-- `CommandRequest::generated_id`
abbrev pub generated_id : ℕ → String → String
generated_id millis prefix = format (prefix ∷ "-" ∷ decimal millis ∷ [])

pub data CommandStatus : Type 0 where
  accepted rejected error timeout not_connected invalid superseded : CommandStatus

-- `CommandStatus::as_str`
abbrev pub status_str : CommandStatus → String
status_str accepted = "accepted"
status_str rejected = "rejected"
status_str error = "error"
status_str timeout = "timeout"
status_str not_connected = "not_connected"
status_str invalid = "invalid"
status_str superseded = "superseded"

abbrev pub is_accepted : CommandStatus → Bool
is_accepted accepted = true
is_accepted _ = false

pub record CommandResult : Type 0 where
  pub id : String
  pub command : Json
  pub source : CommandSource
  pub status : CommandStatus
  pub action : Option String
  pub requested_limit_a : Option F64
  pub applied_limit_a : Option F64
  pub ocpp_request : Option Json
  pub charger_response : Option Json
  pub detail : Option String
  pub timestamp : String

pub record PreparedCall : Type 0 where
  pub unique_id : String
  pub action : String
  pub raw : String
  pub applied_limit_a : Option F64
  pub detail : Option String

pub record InFlight : Type 0 where
  pub request : CommandRequest
  pub prepared : PreparedCall
  pub sent_at : ℕ

-- `serde_json` writes a float that is no number as null
abbrev pub float_json : F64 → Json
float_json x = if Float.is_finite x then f64 x else null

abbrev pub strings : List String → List Json
strings [] = []
strings (s ∷ ss) = string s ∷ strings ss

abbrev option_json : Option ℕ → Json
option_json none = null
option_json (some n) = nat n

-- The serialised command, by the attributes of `ProxyCommand`.
unfoldable pub command_json : ProxyCommand → Json
command_json (set_current_limit a) =
    dict (("command", string "set_current_limit") ∷ ("limit_a", float_json a) ∷ [])
command_json clear_current_limit = dict (("command", string "clear_current_limit") ∷ [])
command_json (get_configuration keys) =
    dict (("command", string "get_configuration") ∷ ("keys", list (strings keys)) ∷ [])
command_json (change_configuration k v) =
    dict (("command", string "change_configuration") ∷ ("key", string k) ∷ ("value", string v) ∷ [])
command_json (trigger_message m c) = dict (
    ("command", string "trigger_message")
    ∷ ("requested_message", string m)
    ∷ ("connector_id", option_json c)
    ∷ [])
command_json (get_composite_schedule c d) = dict (
    ("command", string "get_composite_schedule")
    ∷ ("connector_id", option_json c)
    ∷ ("duration_s", nat d)
    ∷ [])

abbrev requested_limit : ProxyCommand → Option F64
requested_limit (set_current_limit a) = some a
requested_limit _ = none

-- `CommandResult::for_request`
unfoldable pub for_request : String → CommandRequest → CommandStatus → Option String → CommandResult
for_request stamp request status detail = record {
  id = request.id;
  command = command_json request.command;
  source = request.source;
  status = status;
  action = some (action_of request.command);
  requested_limit_a = requested_limit request.command;
  applied_limit_a = none;
  ocpp_request = none;
  charger_response = none;
  detail = detail;
  timestamp = stamp;
}

-- `CommandResult::invalid_payload`
unfoldable pub invalid_payload : String → ℕ → String → CommandResult
invalid_payload stamp millis detail = record {
  id = generated_id millis "invalid";
  command = null;
  source = from_mqtt;
  status = invalid;
  action = none;
  requested_limit_a = none;
  applied_limit_a = none;
  ocpp_request = none;
  charger_response = none;
  detail = some detail;
  timestamp = stamp;
}

abbrev join_details : Option String → Option String → Option String
join_details (some a) (some b) = some (format (a ∷ "; " ∷ b ∷ []))
join_details a b = option_or a b

abbrev to_option : Result String Json → Option Json
to_option (ok j) = some j
to_option (err e) = none

-- `CommandResult::for_in_flight`
unfoldable pub for_in_flight :
    (String → Result String Json)
    → String
    → InFlight
    → CommandStatus
    → Option Json
    → Option String
    → CommandResult
unfolding for_request
for_in_flight from_str stamp f status charger_response detail =
    let result = for_request stamp f.request status none in
    record result {
      action = some f.prepared.action;
      applied_limit_a = f.prepared.applied_limit_a;
      ocpp_request = to_option (from_str f.prepared.raw);
      charger_response = charger_response;
      detail = join_details f.prepared.detail detail;
    }

-- `CommandResult::is_limit_result`
unfoldable pub is_limit_result : CommandResult → Bool
is_limit_result r = elim r.action [
  | none ↦ false
  | some a ↦ a == "SetChargingProfile" || a == "ClearChargingProfile"
]

abbrev source_str : CommandSource → String
source_str from_mqtt = "mqtt"
source_str reapply = "reapply"

abbrev optional : String → Option Json → List (String × Json) → List (String × Json)
optional key none rest = rest
optional key (some v) rest = (key, v) ∷ rest

-- the derived `Serialize` of `CommandResult`, which leaves out what is absent
unfoldable pub result_json : CommandResult → Json
result_json r = dict (
    ("id", string r.id)
    ∷ ("command", r.command)
    ∷ ("source", string (source_str r.source))
    ∷ ("status", string (status_str r.status))
    ∷ optional "action" (option_map string r.action) (
        optional "requested_limit_a" (option_map float_json r.requested_limit_a) (
          optional "applied_limit_a" (option_map float_json r.applied_limit_a) (
            optional "ocpp_request" r.ocpp_request (
              optional "charger_response" r.charger_response (
                optional "detail" (option_map string r.detail)
                  (("timestamp", string r.timestamp) ∷ [])))))))
