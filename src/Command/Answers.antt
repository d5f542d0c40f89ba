-- ===== src/Command/Answers.antt =====
-- How the charger's answer to a call of the proxy is read (src/command.rs).
use ocpp_proxy.Base.{
  ℕ, String, ◌&&◌, ◌==◌, Option, none, some, [], ◌∷◌, Result, ok, err, ◌≡◌, ◌↔◌, ◌⊎◌, refl, inl,
  arith, eq_iff, if◌then◌else◌, unwrap_or, option_bind,
}
use ocpp_proxy.Base.Text.{format, is_blank}
use ocpp_proxy.Json.{Json, null, string, dict, get_index, get_field, as_str}
use ocpp_proxy.Models.{OcppFrame, OcppMessageType, call, call_result, call_error}
use ocpp_proxy.Command.{CommandStatus, accepted, rejected, error}

-- the `match (action, status)` on a result's `status`
judge : String → Option String → CommandStatus × Option String
judge action none = (accepted, none)
judge action (some status) =
    if status == "Accepted"
    then (accepted, none)
    else if action == "ClearChargingProfile" && status == "Unknown"
    then (accepted, some "the charger held no matching profile; nothing to clear")
    else if action == "ChangeConfiguration" && status == "RebootRequired"
    then (accepted, some "stored; the charger needs a reboot before it takes effect")
    else (rejected, some (format ("charger answered " ∷ status ∷ [])))

abbrev pub parsed_or_null : Result String Json → Json
parsed_or_null (ok j) = j
parsed_or_null (err e) = null

abbrev str_at : Json → ℕ → Option String
str_at j i = option_bind (get_index j i) as_str

abbrev error_detail : String → String → String
error_detail code description =
    if is_blank description
    then format ("charger returned CallError " ∷ code ∷ [])
    else format ("charger returned CallError " ∷ code ∷ ": " ∷ description ∷ [])

-- the three branches on the type of the answer
unfoldable pub interpret :
    String → OcppMessageType → Json → CommandStatus × Option Json × Option String
unfolding judge
interpret action call_error parsed =
    let code = unwrap_or (str_at parsed 2) "UnknownError" in
    let description = unwrap_or (str_at parsed 3) "" in
    (
      error,
      some (
          dict (
            ("errorCode", string code)
            ∷ ("errorDescription", string description)
            ∷ ("errorDetails", unwrap_or (get_index parsed 4) null)
            ∷ [])),
      some (error_detail code description),
    )
interpret action call_result parsed =
    let payload = unwrap_or (get_index parsed 2) null in
    let judged = judge action (option_bind (get_field payload "status") as_str) in
    (judged.0, some payload, judged.1)
interpret action (call a) parsed = (error, none, some "expected a response, got a Call")

-- `interpret_response`, with the JSON parser as argument
unfoldable pub interpret_response :
    (String → Result String Json) → String → OcppFrame → CommandStatus × Option Json × Option String
unfolding interpret
interpret_response from_str action frame =
    interpret action frame.message_type (parsed_or_null (from_str frame.raw))

-- The `status` in the payload of an answer, if it is a text.
abbrev pub status_in : Json → Option String
status_in parsed = option_bind (get_field (unwrap_or (get_index parsed 2) null) "status") as_str

-- The answers that leave the wanted state in place: no status, `Accepted`, `Unknown` to a clear, and
-- `RebootRequired` to a change of configuration.
abbrev pub Agrees : String → Option String → Type 0
Agrees action status =
    (status ≡ none)
    ⊎ (status ≡ some "Accepted")
    ⊎ ((action ≡ "ClearChargingProfile") × (status ≡ some "Unknown"))
    ⊎ ((action ≡ "ChangeConfiguration") × (status ≡ some "RebootRequired"))

judge_iff :
    (action : String) (status : Option String)
    → ((judge action status).0 ≡ accepted) ↔ Agrees action status
unfolding judge
judge_iff action none = (λ h. inl refl, λ h. refl)
judge_iff action (some status) = (
  λ h. ground (
    arith,
    eq_iff status "Accepted",
    eq_iff status "Unknown",
    eq_iff status "RebootRequired",
    eq_iff action "ClearChargingProfile",
    eq_iff action "ChangeConfiguration",
  ),
  λ h. ground (
    arith,
    eq_iff status "Accepted",
    eq_iff status "Unknown",
    eq_iff status "RebootRequired",
    eq_iff action "ClearChargingProfile",
    eq_iff action "ChangeConfiguration",
  ),
)

interpret_iff :
    (action : String) (t : OcppMessageType) (parsed : Json)
    → ((interpret action t parsed).0 ≡ accepted)
      ↔ ((t ≡ call_result) × Agrees action (status_in parsed))
unfolding interpret
interpret_iff action call_error parsed = ground arith
interpret_iff action call_result parsed =
    let (to, from) = judge_iff action (status_in parsed) in (λ h. (refl, to h), λ h. from h.1)
interpret_iff action (call a) parsed = ground arith

-- An answer counts as accepted exactly when it is a CallResult whose payload has no status, or has a
-- status that leaves the wanted state in place for this action.
pub interpret_response_iff :
    (from_str : String → Result String Json) (action : String) (frame : OcppFrame)
    → ((interpret_response from_str action frame).0 ≡ accepted) ↔ (
        (frame.message_type ≡ call_result)
        × Agrees action (status_in (parsed_or_null (from_str frame.raw))))
unfolding interpret_response
interpret_response_iff from_str action frame =
    interpret_iff action frame.message_type (parsed_or_null (from_str frame.raw))
