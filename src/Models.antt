-- ===== src/Models.antt =====
-- src/models.rs: OCPP frames and their parser, directions, connection states and events.
pub mod Frames
pub mod Backoff
use ocpp_proxy.Base.{
  ℕ, String, List, [], ◌∷◌, Result, ok, err, ok_or, guard, map_err, ◌>>=◌, ◌>>◌, unwrap_or,
  get_elem?, length, leb, eqb, if◌then◌else◌, Bool, true, false,
}
use ocpp_proxy.Base.Text.{format, decimal}
use ocpp_proxy.Errors.{ProxyError, protocol}
use ocpp_proxy.Json.{Json, null, as_array, as_u64, as_str}

pub data OcppMessageType : Type 0 where
  call : String → OcppMessageType
  call_result call_error : OcppMessageType

pub data Direction : Type 0 where
  charger_to_central central_to_charger : Direction

abbrev pub same_direction : Direction → Direction → Bool
same_direction charger_to_central charger_to_central = true
same_direction central_to_charger central_to_charger = true
same_direction _ _ = false

pub data ConnectionState : Type 0 where
  disconnected connecting connected reconnecting : ConnectionState

abbrev pub same_state : ConnectionState → ConnectionState → Bool
same_state disconnected disconnected = true
same_state connecting connecting = true
same_state connected connected = true
same_state reconnecting reconnecting = true
same_state _ _ = false

pub data ConnectionId : Type 0 where
  upstream downstream mqtt : ConnectionId

-- Times are numbers of a clock's ticks; `received_at` is one.
pub record OcppFrame : Type 0 where
  pub raw : String
  pub message_type : OcppMessageType
  pub unique_id : String
  pub received_at : ℕ

pub record StateChange : Type 0 where
  pub connection : ConnectionId
  pub previous : ConnectionState
  pub current : ConnectionState
  pub timestamp : ℕ

-- `arr[i]`, which the checks before it keep in range
abbrev index : List Json → ℕ → Json
index arr i = unwrap_or (get_elem? arr i) null

-- the `match type_id` of `OcppFrame::parse`
message_type_of : ℕ → List Json → Result ProxyError OcppMessageType
message_type_of type_id arr =
    if eqb type_id 2
    then (do
      guard (leb 4 (length arr)) (protocol "Call message must have at least 4 elements")
      action ←
          ok_or (as_str (index arr 2))
            (protocol "Third element of Call message must be a string (Action)")
      ok (call action))
    else if eqb type_id 3
    then ok call_result
    else if eqb type_id 4
    then ok call_error
    else err (
        protocol (
          format (
            "Unknown OCPP message type: "
            ∷ decimal type_id
            ∷ ". Expected 2 (Call), 3 (CallResult), or 4 (CallError)"
            ∷ [])))

-- `OcppFrame::parse`, with the JSON parser (its error as text) and the clock as arguments
unfoldable pub parse : (String → Result String Json) → ℕ → String → Result ProxyError OcppFrame
unfolding message_type_of
parse from_str now raw = do
  parsed ← map_err (λ e. protocol (format ("Invalid JSON: " ∷ e ∷ []))) (from_str raw)
  arr ← ok_or (as_array parsed) (protocol "OCPP message must be a JSON array")
  guard (leb 3 (length arr)) (
      protocol (
        format
          ("OCPP message array must have at least 3 elements, got " ∷ decimal (length arr) ∷ [])))
  type_id ←
      ok_or (as_u64 (index arr 0))
        (protocol "First element of OCPP message must be a message type integer")
  unique_id ←
      ok_or (as_str (index arr 1))
        (protocol "Second element of OCPP message must be a string (UniqueId)")
  message_type ← message_type_of type_id arr
  ok (record { raw = raw; message_type = message_type; unique_id = unique_id; received_at = now })
