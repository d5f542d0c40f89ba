-- ===== src/Command/Payload.antt =====
-- `parse_command_payload` of src/command.rs. The derived decoder of `ProxyCommand`, the JSON parser and
-- printer, and the parsing of floats are arguments.
use ocpp_proxy.Base.{
  ℕ, String, Bool, not, ◌||◌, ◌==◌, Option, none, some, [], ◌∷◌, Result, ok, err, guard, map_err,
  ok_or, ◌>>=◌, ◌>>◌, if◌then◌else◌,
}
use ocpp_proxy.Base.Text.{format, trim, is_blank, starts_with_char, lowers_to}
use ocpp_proxy.Base.Float
use ocpp_proxy.Base.Float.{F64}
use ocpp_proxy.Json.{
  Json, Members, no_members, member_then, Number, null, number, string, object, as_object, get_key,
  f64,
}
use ocpp_proxy.Command.{
  ProxyCommand, set_current_limit, clear_current_limit, CommandRequest, new_request, generated_id,
  from_mqtt,
}
use ocpp_proxy.Command.Topics.{CommandTopic, command, current_limit}

-- What `parse_command_payload` calls of libraries.
pub record Decoders (Bytes : Type 0) : Type 0 where
  pub from_utf8 : Bytes → Option String
  pub parse_f64 : String → Option F64
  pub from_str : String → Result String Json
  pub from_value : Json → Result String ProxyCommand
  pub show_number : Number → String
  pub show_value : Json → String
  pub debug : String → String

-- `map.remove(key)` and `map.insert(key, value)` for a key that is there
abbrev remove_key : String → Members → Members
remove_key k no_members = no_members
remove_key k (member_then j v ps) = if j == k then ps else member_then j v (remove_key k ps)

abbrev replace_key : String → Json → Members → Members
replace_key k v no_members = no_members
replace_key k v (member_then j w ps) =
    if j == k then member_then j v ps else member_then j w (replace_key k v ps)

abbrev is_clear_word : String → Bool
is_clear_word t =
    lowers_to t "clear" || lowers_to t "off" || lowers_to t "none" || lowers_to t "null"

module _ {Bytes : Type 0} (d : Decoders Bytes) (now millis : ℕ) where
  abbrev request : String → ProxyCommand → CommandRequest
  request id c = new_request now id c from_mqtt

  limit_of : String → Result String ProxyCommand
  limit_of t = if is_clear_word t then ok clear_current_limit else elim (d.parse_f64 t) [
    | some a ↦ ok (set_current_limit a)
    | none ↦ err (
        format (
          "expected a number of amps or 'clear' on the current_limit topic, got " ∷ d.debug t ∷ []))
  ]

  given_id : Json → Result String String
  unfolding trim
  given_id (string s) =
      if is_blank (trim s)
      then err (format ("id must be a string or number, got " ∷ d.show_value (string s) ∷ []))
      else ok s
  given_id (number n) = ok (d.show_number n)
  given_id null = ok (generated_id millis "cmd")
  given_id v = err (format ("id must be a string or number, got " ∷ d.show_value v ∷ []))

  id_of : Option Json → Result String String
  unfolding given_id
  id_of none = ok (generated_id millis "cmd")
  id_of (some v) = given_id v

  -- a limit that is written as a text; `json!` makes null of a float that is not finite
  lenient : Members → Option Json → Members
  lenient ps (some (string s)) = elim (d.parse_f64 (trim s)) [
    | some n ↦ replace_key "limit_a" (if Float.is_finite n then f64 n else null) ps
    | none ↦ ps
  ]
  lenient ps v = ps

  of_object : String → Result String CommandRequest
  unfolding id_of lenient
  of_object t = do
    value ← map_err (λ e. format ("payload is not valid JSON: " ∷ e ∷ [])) (d.from_str t)
    props ← ok_or (as_object value) "payload must be a JSON object"
    id ← id_of (get_key props "id")
    let rest = remove_key "id" props
    c ←
        map_err
          (λ e. format (
            "unrecognised command (" ∷ e
            ∷ "); expected one of set_current_limit, clear_current_limit, get_configuration, change_configuration, trigger_message, get_composite_schedule"
            ∷ []))
          (d.from_value (object (lenient rest (get_key rest "limit_a"))))
    ok (request id c)

  of_text : CommandTopic → String → Result String CommandRequest
  unfolding limit_of of_object
  of_text current_limit t =
      if starts_with_char b'{' t
      then of_object t
      else (do c ← limit_of t; ok (request (generated_id millis "limit") c))
  of_text command t = of_object t

  -- `parse_command_payload`
  unfoldable pub parse_command_payload : CommandTopic → Bytes → Result String CommandRequest
  unfolding trim of_text
  parse_command_payload kind payload = do
    text ← ok_or (d.from_utf8 payload) "payload is not UTF-8"
    guard (not (trim text == "")) "payload is empty"
    of_text kind (trim text)
