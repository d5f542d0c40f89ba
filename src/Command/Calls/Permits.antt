-- ===== src/Command/Calls/Permits.antt =====
-- What the calls are that `prepare_call` makes, and which commands it refuses (src/command.rs).
use ocpp_proxy.Base.{
  ℕ, String, true, false, Option, List, [], ◌∷◌, ◌==◌, ◌≡◌, refl, sym, Bool-cases, Result, ok, any,
  arith, Result-cases, inl, inr, eq_iff,
}
use mathlib.Core.List.{Memᴰ}
use ocpp_proxy.Base.Float
use ocpp_proxy.Base.Float.{F64, Arithmetic}
use ocpp_proxy.Json.{Json, no_values}
use ocpp_proxy.Models.{call, parse}
use ocpp_proxy.Models.Frames.{frame, parse_iff, a_call}
use ocpp_proxy.Config.Charging.{ChargingConfig}
use ocpp_proxy.Command.{
  ProxyCommand, set_current_limit, change_configuration, trigger_message, action_of, CommandRequest,
  PreparedCall,
}
use ocpp_proxy.Command.Limits.{resolve_limit, resolve_limit_finite}
use ocpp_proxy.Command.Calls.{triggerable_messages, call_json, payload_of, prepare_call}

any-Memᴰ : (s : String) (xs : List String) → any (λ k. k == s) xs ≡ true → Memᴰ s xs
any-Memᴰ s [] h = absurd (cc)
any-Memᴰ s (x ∷ xs) h = elim (Bool-cases (x == s)) [
  | inl e ↦ Memᴰ.head (sym ((eq_iff x s).0 e))
  | inr e ↦ Memᴰ.tail (any-Memᴰ s xs (ground arith))
]

-- The commands that the policy lets through to the charger.
abbrev pub Permitted : ChargingConfig → ProxyCommand → Type 0
Permitted config (set_current_limit limit) =
    (Float.is_finite limit ≡ true) × (Float.lt limit Float.zero ≡ false)
Permitted config (change_configuration key value) = Memᴰ key config.allowed_configuration_keys
Permitted config (trigger_message message connector) = Memᴰ message triggerable_messages
Permitted config _ = Unit

module _ (a : Arithmetic) (rfc3339 : ℕ → String) (debug : String → String) (config : ChargingConfig)
    (now : ℕ) where
  payload_of-Permitted :
      (c : ProxyCommand) (r : Json × Option F64 × Option String)
      → payload_of a rfc3339 debug config now c ≡ ok r
      → Permitted config c
  unfolding payload_of
  payload_of-Permitted (set_current_limit limit) r h =
      elim (Result-cases (resolve_limit a config limit)) [
        | inl (l, e) ↦ resolve_limit_finite a config limit l e
        | inr (e, p) ↦ absurd (ground arith)
      ]
  payload_of-Permitted (change_configuration key value) r h =
      any-Memᴰ key config.allowed_configuration_keys (ground arith)
  payload_of-Permitted (trigger_message message connector) r h =
      any-Memᴰ message triggerable_messages (ground arith)
  payload_of-Permitted _ r h = tt

  -- the text of a call with this command's action and payload is read as a call with the same unique id and
  -- action; its payload may differ, since floats are read to the nearest that is found fast
  module _ (to_string : Json → Result String String) (from_str : String → Result String Json)
      (read_back : (c : ProxyCommand) (r : Json × Option F64 × Option String) (id s : String)
        → payload_of a rfc3339 debug config now c ≡ ok r
        → to_string (call_json id (action_of c) r.0) ≡ ok s
        → (payload : Json) × (from_str s ≡ ok (call_json id (action_of c) payload))) where
    -- Where the JSON parser reads the text of a call that the proxy makes as one with the same unique id and action,
    -- a call that is prepared is for a command that the policy permits, and its text is read as an OCPP Call with
    -- the unique id that was asked for and the action of the command, which the prepared call also names.
    pub prepare_call-parse :
        (request : CommandRequest) (id : String) (p : PreparedCall) (later : ℕ)
        → prepare_call a rfc3339 debug to_string config request id now ≡ ok p
        → Permitted config request.command
          × (p.unique_id ≡ id)
          × (p.action ≡ action_of request.command)
          × (parse from_str later p.raw
              ≡ ok (frame p.raw (call (action_of request.command)) id later))
    unfolding prepare_call
    prepare_call-parse request id p later h =
        elim (Result-cases (payload_of a rfc3339 debug config now request.command)) [
          | inr (e, q) ↦ absurd (ground arith)
          | inl (r, q) ↦
              let printed : to_string (call_json id (action_of request.command) r.0) ≡ ok p.raw =
                ground arith in
              let (payload, read) = read_back request.command r id p.raw q printed in
              (
                payload_of-Permitted request.command r q,
                ground arith,
                ground arith,
                (parse_iff from_str later p.raw read _).1 (
                  call (action_of request.command),
                  id,
                  refl,
                  a_call 2 id (action_of request.command) payload no_values refl,
                ),
              )
        ]
