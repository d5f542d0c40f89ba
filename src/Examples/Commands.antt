-- ===== src/Examples/Commands.antt =====
-- The theorems on commands, at concrete inputs.
use ocpp_proxy.Base.{
  length, retain, max, ◌≤◌, ℕ, String, true, false, ◌==◌, none, some, [], ◌∷◌, ◌≡◌, ◌↔◌, refl,
  arith, ok, if◌then◌else◌, lookup,
}
use ocpp_proxy.Base.Text.{is_blank}
use ocpp_proxy.Base.Float
use ocpp_proxy.Base.Float.{F64}
use ocpp_proxy.Models.{call_result}
use ocpp_proxy.Json.{
  Json, number, string, array, object, value_then, no_values, no_members, unsigned,
}
use ocpp_proxy.Models.{call, parse}
use ocpp_proxy.Models.Frames.{frame}
use ocpp_proxy.Command.Calls.{call_json, prepare_call}
use ocpp_proxy.Command.Calls.Permits.{Permitted, prepare_call-parse}
use ocpp_proxy.Command.{
  CommandRequest, PreparedCall, get_configuration, new_request, from_mqtt, action_of,
}
use ocpp_proxy.Base.{err, Result, ◌&&◌, eqb, eq_iff, if◌then◌else◌}
use ocpp_proxy.Config.Charging
use ocpp_proxy.Config.Charging.{ChargingConfig}
use ocpp_proxy.Config.Checks.{IsSound}
use ocpp_proxy.Command.{InFlight, accepted}
use ocpp_proxy.Command.Topics.{
  command, current_limit, command_topic, current_limit_topic, command_result_topic,
  parse_command_topic, topic_of, parse_command_topic_lem, parse_command_topic_sound,
}
use ocpp_proxy.Command.Limits.{ResolvedLimit, resolve_limit, IsAllowed, resolve_limit_bounds}
use ocpp_proxy.Command.Answers.{
  interpret_response, Agrees, status_in, parsed_or_null, interpret_response_iff,
}
use ocpp_proxy.Command.Queue.{new, is_limit}
use ocpp_proxy.Command.Queue.Laws.{operations-IsValid, IsValid, operations, pushed}
use ocpp_proxy.Command.Router.{Router, Registration, register, deregister, deregister_displaced}
use ocpp_proxy.Examples.Fixtures.{from_str, answer, clear_request, arithmetic, odd_ceiling}

parse_command_topic_lem_example :
    (parse_command_topic (command_topic "CP1") ≡ some ("CP1", command))
    × (parse_command_topic (current_limit_topic "CP1") ≡ some ("CP1", current_limit))
    × (parse_command_topic (command_result_topic "CP1") ≡ none)
parse_command_topic_lem_example =
    parse_command_topic_lem "CP1" (ground arith, (ground arith, (ground arith, tt))) refl

parse_command_topic_sound_example :
    ("ocpp/CP1/command" ≡ topic_of "CP1" command) × (is_blank "CP1" ≡ false)
unfolding parse_command_topic
parse_command_topic_sound_example = parse_command_topic_sound "ocpp/CP1/command" "CP1" command refl

default-IsSound : IsSound Charging.default
unfolding Float.is_finite Float.le Float.lt
default-IsSound = record {
  max_finite = refl;
  max_positive = refl;
  max_ceiling = refl;
  min_finite = refl;
  min_positive = refl;
  ordered = refl;
  profile = (1001, refl, ground arith);
  site_wide = λ h. refl;
  phases = λ n h. ground arith;
  voltage_finite = refl;
  voltage = refl;
  timeout_least = ground arith;
  timeout_most = ground arith;
}

odd_ceiling-IsSound : IsSound odd_ceiling
unfolding Float.is_finite Float.le Float.lt
odd_ceiling-IsSound = record {
  max_finite = refl;
  max_positive = refl;
  max_ceiling = refl;
  min_finite = refl;
  min_positive = refl;
  ordered = refl;
  profile = (1001, refl, ground arith);
  site_wide = λ h. refl;
  phases = λ n h. ground arith;
  voltage_finite = refl;
  voltage = refl;
  timeout_least = ground arith;
  timeout_most = ground arith;
}

-- 40 A
abbrev forty : F64
forty = record { bits = 0x4044_0000_0000_0000 }

resolve_limit_bounds_example :
    (l : ResolvedLimit) × (resolve_limit arithmetic Charging.default forty ≡ ok l)
    × (l.requested_a ≡ forty)
    × IsAllowed arithmetic Charging.default l.applied_a
unfolding Float.is_finite Float.lt
resolve_limit_bounds_example =
    resolve_limit_bounds arithmetic Charging.default forty default-IsSound refl refl

-- a ceiling of 31.96 A and a request of 40 A
interpret_response_iff_example :
    ((interpret_response from_str "ClearChargingProfile" answer).0 ≡ accepted) ↔ (
      (answer.message_type ≡ call_result)
      × Agrees "ClearChargingProfile" (status_in (parsed_or_null (from_str answer.raw))))
interpret_response_iff_example = interpret_response_iff from_str "ClearChargingProfile" answer

deregister_displaced_example :
    let both : Router ℕ = register "CP1" 2 20 (register "CP1" 1 10 []) in
    (deregister "CP1" 1 both ≡ (false, both))
    × (lookup "CP1" both ≡ some (record { generation = 2; tx = 20 }))
    × ((deregister "CP1" 2 both).0 ≡ true)
    × ((j : String)
        → lookup j (deregister "CP1" 2 both).1
          ≡ (if "CP1" == j then none else lookup {V = Registration ℕ} j []))
deregister_displaced_example =
    deregister_displaced "CP1" 1 2 10 20 [] (λ e. absurd (ground (arith, e)))

operations-IsValid_example :
    let q = operations (pushed clear_request ∷ pushed clear_request ∷ []) (new 30 16) in
    IsValid q × (length q.queued ≤ max 16 1) × (length (retain is_limit q.queued) ≤ 1)
operations-IsValid_example =
    operations-IsValid 30 16 (pushed clear_request ∷ pushed clear_request ∷ [])

-- A printer that writes the calls of `GetConfiguration` without keys as their unique id, and its parser.
abbrev call_of : String → Json
call_of id = array (
    value_then (number (unsigned 2)) (
      value_then (string id)
        (value_then (string "GetConfiguration") (value_then (object no_members) no_values))))

abbrev print_call : Json → Result String String
print_call
      (array (
        value_then (number (unsigned n)) (
          value_then
            (string id)
            (value_then (string a) (value_then (object no_members) no_values))))) =
    if eqb n 2 && (a == "GetConfiguration") then ok id else err "another value"
print_call _ = err "another value"

abbrev read_call : String → Result String Json
read_call text = ok (call_of text)

read_call-print_call : (j : Json) (s : String) → print_call j ≡ ok s → read_call s ≡ ok j
read_call-print_call
      (array (
        value_then (number (unsigned n)) (
          value_then
            (string id)
            (value_then (string a) (value_then (object no_members) no_values)))))
      s h =
    ground (arith, eq_iff a "GetConfiguration")
read_call-print_call j s h = ground arith

abbrev get_all : CommandRequest
get_all = new_request 4 "cmd-2" (get_configuration []) from_mqtt

abbrev get_all_call : PreparedCall
get_all_call = record {
  unique_id = "proxy-7-2";
  action = "GetConfiguration";
  raw = "proxy-7-2";
  applied_limit_a = none;
  detail = none;
}

prepare_call-parse_example :
    Permitted Charging.default get_all.command
    × (get_all_call.unique_id ≡ "proxy-7-2")
    × (get_all_call.action ≡ action_of get_all.command)
    × (parse read_call 9 get_all_call.raw
        ≡ ok (frame get_all_call.raw (call (action_of get_all.command)) "proxy-7-2" 9))
unfolding prepare_call ocpp_proxy.Command.Calls.payload_of
prepare_call-parse_example =
    prepare_call-parse arithmetic (λ n. "now") (λ t. t) Charging.default 5 print_call read_call
      (λ c r id s q h. (r.0, read_call-print_call (call_json id (action_of c) r.0) s h)) get_all
      "proxy-7-2" get_all_call 9 refl
