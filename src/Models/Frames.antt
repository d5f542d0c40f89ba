-- ===== src/Models/Frames.antt =====
-- The frames that the parser accepts, described by the three shapes of an OCPP 1.6J message.
use ocpp_proxy.Base.{
  ◌≢◌, err, Result-cases, false, ap, ℕ, String, Result, ok, ◌≡◌, ◌↔◌, sym, ◌∙◌, inl, inr, arith,
  eqb, Bool-cases,
}
use ocpp_proxy.Errors.{ProxyError}
use ocpp_proxy.Json.{Json, Values, value_then, number, string, array, unsigned}
use ocpp_proxy.Models.{OcppMessageType, call, call_result, call_error, OcppFrame, parse}

-- `Encodes j t id`: the JSON value `j` is a message of type `t` with the unique id `id`.
pub data Encodes : Json → OcppMessageType → String → Type 0 where
  a_call :
      (n : ℕ) (id action : String) (payload : Json) (more : Values)
      → n ≡ 2
      → Encodes
          (array (
            value_then
              (number (unsigned n))
              (value_then (string id) (value_then (string action) (value_then payload more)))))
          (call action)
          id
  a_result :
      (n : ℕ) (id : String) (payload : Json) (more : Values)
      → n ≡ 3
      → Encodes
          (array
            (value_then (number (unsigned n)) (value_then (string id) (value_then payload more))))
          call_result
          id
  an_error :
      (n : ℕ) (id : String) (code : Json) (more : Values)
      → n ≡ 4
      → Encodes
          (array (value_then (number (unsigned n)) (value_then (string id) (value_then code more))))
          call_error
          id

abbrev pub frame : String → OcppMessageType → String → ℕ → OcppFrame
frame raw t id now = record { raw = raw; message_type = t; unique_id = id; received_at = now }

-- The frame of an accepted message, and what its JSON encodes.
abbrev pub Accepted : ℕ → String → Json → OcppFrame → Type 0
Accepted now raw j f =
    (t : OcppMessageType) × (id : String) × (f ≡ frame raw t id now) × Encodes j t id

module _ (now : ℕ) (raw : String) where
  abbrev read : Json → Result ProxyError OcppFrame
  read j = parse (λ _. ok j) now raw

  response_Accepted :
      (n : ℕ) (id : String) (c : Json) (more : Values) (f : OcppFrame)
      → eqb n 2 ≡ false
      → read (array (value_then (number (unsigned n)) (value_then (string id) (value_then c more))))
        ≡ ok f
      → Accepted now raw
          (array (value_then (number (unsigned n)) (value_then (string id) (value_then c more))))
          f
  unfolding parse
  response_Accepted n id c more f two h = elim (Bool-cases (eqb n 3)) [
    | inl e ↦ (call_result, id, ground arith, a_result n id c more (ground arith))
    | inr e ↦ (call_error, id, ground arith, an_error n id c more (ground arith))
  ]

  read_sound : (j : Json) (f : OcppFrame) → read j ≡ ok f → Accepted now raw j f
  unfolding parse
  read_sound
        (array (
          value_then
            (number (unsigned n))
            (value_then (string id) (value_then (string a) (value_then p more)))))
        f h =
      elim (Bool-cases (eqb n 2)) [
        | inl e ↦ (call a, id, ground arith, a_call n id a p more (ground arith))
        | inr e ↦ response_Accepted n id (string a) (value_then p more) f e h
      ]
  read_sound (array (value_then (number (unsigned n)) (value_then (string id) (value_then c more))))
        f h =
      response_Accepted n id c more f (ground arith) h
  read_sound j f h = ground arith

  read_complete :
      {j : Json} {t : OcppMessageType} {id : String}
      → Encodes j t id
      → read j ≡ ok (frame raw t id now)
  unfolding parse
  read_complete (a_call n id action payload more e) = ground arith
  read_complete (a_result n id payload more e) = ground arith
  read_complete (an_error n id code more e) = ground arith

module _ (from_str : String → Result String Json) (now : ℕ) (raw : String) {j : Json}
    (parsed : from_str raw ≡ ok j) where
  parse-read : parse from_str now raw ≡ read now raw j
  unfolding parse
  parse-read = rw parsed

  -- A text that is JSON is accepted as the frame `f` exactly when its value is one of the three
  -- message shapes and `f` holds the text unchanged, the type and the unique id of that shape, and
  -- the time of its arrival.
  pub parse_iff : (f : OcppFrame) → (parse from_str now raw ≡ ok f) ↔ Accepted now raw j f
  parse_iff f = (
    λ h. read_sound now raw j f (sym parse-read ∙ h),
    λ (t, id, e, shape). parse-read ∙ read_complete now raw shape ∙ ap ok (sym e),
  )

-- A frame carries the text that it was read from.
unparsed :
    (from_str : String → Result String Json) (now : ℕ) (raw e : String) (frame : OcppFrame)
    → from_str raw ≡ err e
    → parse from_str now raw ≢ ok frame
unfolding parse
unparsed from_str now raw e frame bad h = ground arith

pub parse-raw :
    (from_str : String → Result String Json) (now : ℕ) (raw : String) (f : OcppFrame)
    → parse from_str now raw ≡ ok f
    → f.raw ≡ raw
parse-raw from_str now raw f h = elim (Result-cases (from_str raw)) [
  | inl (j, e) ↦ ap (λ g. g.raw) ((parse_iff from_str now raw e f).0 h).2
  | inr (e, bad) ↦ elim (unparsed from_str now raw e f bad h) [ ]
]
