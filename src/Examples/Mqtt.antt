-- ===== src/Examples/Mqtt.antt =====
-- The theorems on the MQTT publisher, at concrete inputs.
use ocpp_proxy.Base.{
  ℕ, String, Bool, true, false, ◌==◌, none, some, List, [], ◌∷◌, ◌++◌, ◌≡◌, ◌≢◌, ◌⊎◌, refl, arith,
  Result, ok, err, if◌then◌else◌,
}
use ocpp_proxy.Json.{Json, Members, list, nat, string, get_str, from_members}
use ocpp_proxy.Json.Int.{pos, ◌-ℤ◌}
use ocpp_proxy.Models.{call, connected}
use ocpp_proxy.Models.Backoff.{with_defaults}
use ocpp_proxy.Config.Charging
use ocpp_proxy.Command.{CommandResult, for_request, rejected, accepted, is_limit_result}
use ocpp_proxy.Command.Payload.{Decoders}
use ocpp_proxy.Command.Router.{delivered}
use ocpp_proxy.Mqtt.{MqttMessage, MqttPublisher, Client, availability_topic}
use ocpp_proxy.Mqtt.Snapshot.{ChargePointState, no_state, apply, apply_command_result, standing}
use ocpp_proxy.Mqtt.Snapshot.Sessions.{apply_all, session_energy}
use ocpp_proxy.Mqtt.Handling.{Clock, publish_command_result, standing_limit}
use ocpp_proxy.Mqtt.Incoming.{Handed, Answered, handle_incoming_publish_lem}
use ocpp_proxy.Command.{CommandRequest}
use ocpp_proxy.Command.Topics.{current_limit, parse_command_topic}
use ocpp_proxy.Command.Payload.{parse_command_payload}
use ocpp_proxy.Mqtt.Handling.{handle_incoming_publish}
use ocpp_proxy.Mqtt.Standing.{publish_command_result-standing_limit}
use ocpp_proxy.Examples.Fixtures.{two_ids, clear_request, seconds}

abbrev start_args : Members
start_args =
    from_members (("connectorId", nat 1) ∷ ("idTag", string "T") ∷ ("meterStart", nat 1000) ∷ [])

abbrev stop_args : Members
stop_args = from_members (("meterStop", nat 8500) ∷ ("reason", string "Local") ∷ [])

abbrev from_str : String → Result String Json
from_str t =
    if t == "start"
    then ok (list (nat 2 ∷ string "1" ∷ string "StartTransaction" ∷ Json.object start_args ∷ []))
    else if t == "stop"
    then ok (list (nat 2 ∷ string "2" ∷ string "StopTransaction" ∷ Json.object stop_args ∷ []))
    else err "expected value"

session_energy_example :
    let opened =
      (apply from_str "now" "StartTransaction" (call "StartTransaction") "start" no_state).1 in
    let closed =
      (apply from_str "now" "StopTransaction" (call "StopTransaction") "stop" (
        apply_all from_str "now"
          (("StatusNotification", call "StatusNotification", "status") ∷ [])
          opened)).1 in
    (closed.last_session_energy_wh ≡ some (pos 8500 -ℤ pos 1000))
    × (closed.last_meter_stop_wh ≡ some (pos 8500))
    × (closed.last_stop_reason ≡ get_str stop_args "reason")
    × (closed.transaction_id ≡ none)
    × (closed.meter_start_wh ≡ none)
unfolding ocpp_proxy.Mqtt.Snapshot.ocpp_args ◌-ℤ◌
session_energy_example =
    session_energy from_str "now" "start" "stop" start_args stop_args
      (("StatusNotification", call "StatusNotification", "status") ∷ []) no_state (pos 1000)
      (pos 8500) refl refl refl refl (refl, tt) (ground arith) (ground arith)

abbrev result : CommandResult
result = for_request "now" clear_request rejected none

-- a client whose channel has room for two messages
abbrev pub offer : MqttMessage → List MqttMessage → Bool × List MqttMessage
offer m (a ∷ b ∷ ms) = (false, a ∷ b ∷ ms)
offer m (a ∷ []) = (true, a ∷ m ∷ [])
offer m [] = (true, m ∷ [])

pub offer-ok :
    (m : MqttMessage) (w : List MqttMessage) → (offer m w).0 ≡ true → (offer m w).1 ≡ w ++ m ∷ []
offer-ok m (a ∷ b ∷ ms) h = absurd (cc)
offer-ok m (a ∷ []) h = refl
offer-ok m [] h = refl

pub offer-refused :
    (m : MqttMessage) (w : List MqttMessage) → (offer m w).0 ≡ false → (offer m w).1 ≡ w
offer-refused m (a ∷ b ∷ ms) h = refl
offer-refused m (a ∷ []) h = absurd (cc)
offer-refused m [] h = absurd (cc)

abbrev pub client : Client ℕ (List MqttMessage)
client = record {
  try_publish = offer;
  try_subscribe = λ w. (true, w);
  save = λ s w. w;
  try_send = λ t r w. (delivered, w);
  to_vec = λ j. ok "{}";
  published = λ w. w;
  published-ok = offer-ok;
  published-refused = offer-refused;
  published-subscribe = λ w. refl;
  published-save = λ s w. refl;
  published-send = λ t r w. refl;
}

abbrev message : MqttMessage
message = record { topic = "ocpp/CP1/status"; payload = "{}"; retain = true }

abbrev pub publisher : MqttPublisher ℕ
publisher = record {
  lwt_charge_point_id = some "CP1";
  buffer = message ∷ message ∷ [];
  max_buffer_size = 2;
  state = connected;
  backoff = with_defaults 1_000_000_000 30_000_000_000;
  charge_point_state = [];
  state_manager = none;
  flush_in_progress = none;
  command_router = some [];
  charging = some Charging.default;
  subscribe_pending = false;
  link_state = [];
}

abbrev pub decoders : Decoders String
decoders = record {
  from_utf8 = λ b. some b;
  parse_f64 = λ t. none;
  from_str = from_str;
  from_value = λ v. err "missing field";
  show_number = λ n. "1";
  show_value = λ v. "{}";
  debug = λ t. t;
}

abbrev pub clock : Clock
clock = record { now = 5; millis = 7; stamp = "now" }

abbrev pub rfc3339 : ℕ → String
rfc3339 n = "now"

publish_command_result-standing_limit_example :
    let p' =
      (publish_command_result client decoders rfc3339 seconds clock "CP1" result publisher []).0 in
    let limit = standing_limit client decoders rfc3339 seconds clock "CP1" p' in
    (((result.status ≡ accepted)
        × (result.action ≡ some "SetChargingProfile")
        × (limit ≡ result.applied_limit_a))
      ⊎ (((result.status ≡ accepted)
            × (result.action ≡ some "ClearChargingProfile")
            × (limit ≡ none))
          ⊎ ((result.status ≢ accepted) × (limit ≡ none))))
    × (standing_limit client decoders rfc3339 seconds clock "CP2" p'
        ≡ standing_limit client decoders rfc3339 seconds clock "CP2" publisher)
unfolding is_limit_result for_request
publish_command_result-standing_limit_example =
    publish_command_result-standing_limit client decoders rfc3339 seconds clock "CP1" "CP2" result
      publisher [] Charging.default refl two_ids refl refl

handle_incoming_publish_lem_example :
    let r =
      handle_incoming_publish client decoders rfc3339 seconds clock "ocpp/CP1/command/current_limit"
        "off" publisher [] in
    ((request : CommandRequest) × (parse_command_payload decoders clock.now clock.millis
          current_limit "off"
        ≡ ok request)
      × Handed client decoders rfc3339 seconds clock "CP1" request publisher [] r)
    ⊎ Answered client decoders rfc3339 seconds clock "CP1" publisher [] r
unfolding parse_command_topic
handle_incoming_publish_lem_example =
    handle_incoming_publish_lem client decoders rfc3339 seconds clock
      "ocpp/CP1/command/current_limit" "off" "CP1" current_limit publisher [] refl
