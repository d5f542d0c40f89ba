-- ===== src/Mqtt/Snapshot/Sessions.antt =====
-- What the retained snapshot says of charging sessions and of limits (src/mqtt.rs).
use ocpp_proxy.Base.{
  ◌<◌, ◌≤◌, ◌^◌, String, Bool, true, false, not, ◌==◌, Option, none, some, List, [], ◌∷◌, ◌≡◌, ◌≢◌,
  refl, ap, ◌∙◌, ◌⊎◌, inl, inr, arith, if◌then◌else◌, Result, All, Bool-cases, Option-cases, ◌&&◌,
}
use ocpp_proxy.Json.{Json, Members, get_i64, get_str}
use ocpp_proxy.Json.Int.{ℤ, pos_part, neg_part, sub_i64, sub_i64-exact, ◌-ℤ◌}
use ocpp_proxy.Models.{OcppMessageType, call, call_result, call_error}
use ocpp_proxy.Command.{CommandResult, is_limit_result, is_accepted, status_str, accepted}
use ocpp_proxy.Mqtt.Snapshot.{
  ChargePointState, ocpp_args, apply, apply_command_result, standing, folded, stamped, on_start,
  on_stop, unchanged,
}

module _ (from_str : String → Result String Json) (stamp : String) where
  -- What `apply` leaves, but for the time of the last update.
  abbrev pub Timed : ChargePointState → ChargePointState → Type 0
  Timed s t = (o : Option String) × (t ≡ record s { last_updated = o })

  stamped-Timed : (before s : ChargePointState) → Timed s (stamped stamp before s).1
  unfolding unchanged
  stamped-Timed before s = elim (Bool-cases (unchanged s before)) [
    | inl e ↦ rw e (_, refl)
    | inr e ↦ rw e (_, refl)
  ]

  apply-Timed :
      (action : String) (t : OcppMessageType) (raw : String) (args : Members)
      (s s' : ChargePointState)
      → ocpp_args from_str raw t ≡ some args
      → folded action t args s ≡ some s'
      → Timed s' (apply from_str stamp action t raw s).1
  unfolding apply
  apply-Timed action t raw args s s' e f = rw (e, f, apply) (stamped-Timed s s')

  -- neither the start nor the stop of a session
  abbrev pub is_within : String × OcppMessageType × String → Bool
  is_within (action, call a, raw) =
      not (action == "StartTransaction") && not (action == "StopTransaction")
  is_within (action, call_result, raw) = true
  is_within (action, call_error, raw) = true

  -- `apply`, one message after the other
  unfoldable pub apply_all :
      List (String × OcppMessageType × String) → ChargePointState → ChargePointState
  apply_all [] s = s
  apply_all ((action, t, raw) ∷ ms) s = apply_all ms (apply from_str stamp action t raw s).1

  folded-keeps :
      (action : String) (t : OcppMessageType) (raw : String) (args : Members)
      (s s' : ChargePointState)
      → is_within (action, t, raw) ≡ true
      → folded action t args s ≡ some s'
      → s'.meter_start_wh ≡ s.meter_start_wh
  folded-keeps action (call a) raw args s s' h f = ground arith
  folded-keeps action call_result raw args s s' h f = ground arith
  folded-keeps action call_error raw args s s' h f = ground arith

  apply-keeps :
      (action : String) (t : OcppMessageType) (raw : String) (s : ChargePointState)
      → is_within (action, t, raw) ≡ true
      → (apply from_str stamp action t raw s).1.meter_start_wh ≡ s.meter_start_wh
  unfolding apply
  apply-keeps action t raw s h = elim (Option-cases (ocpp_args from_str raw t)) [
    | inl e ↦ rw (e, apply) refl
    | inr (args, e) ↦ elim (Option-cases (folded action t args s)) [
      | inl f ↦ rw (e, f, apply) refl
      | inr (s', f) ↦
          let (o, timed) = apply-Timed action t raw args s s' e f in
          ap (λ x. x.meter_start_wh) timed ∙ folded-keeps action t raw args s s' h f
    ]
  ]

  apply_all-keeps :
      (ms : List (String × OcppMessageType × String)) (s : ChargePointState)
      → All (λ m. is_within m ≡ true) ms
      → (apply_all ms s).meter_start_wh ≡ s.meter_start_wh
  unfolding apply_all
  apply_all-keeps [] s h = refl
  apply_all-keeps ((action, t, raw) ∷ ms) s (h, hs) =
      apply_all-keeps ms _ hs ∙ apply-keeps action t raw s h

  -- A stop leaves the energy from the reading that the state holds, and forgets the open session.
  stop-energy :
      (stop : String) (b : Members) (s : ChargePointState) (first last : ℤ)
      → ocpp_args from_str stop (call "StopTransaction") ≡ some b
      → s.meter_start_wh ≡ some first
      → get_i64 b "meterStop" ≡ some last
      → let closed = (apply from_str stamp "StopTransaction" (call "StopTransaction") stop s).1 in
        (closed.last_session_energy_wh ≡ some (sub_i64 last first))
        × (closed.last_meter_stop_wh ≡ some last)
        × (closed.last_stop_reason ≡ get_str b "reason")
        × (closed.transaction_id ≡ none)
        × (closed.meter_start_wh ≡ none)
  stop-energy stop b s first last eb m n =
      let (v, timed) =
        apply-Timed "StopTransaction" (call "StopTransaction") stop b s (on_stop b s) eb refl in
      rw (timed, n, m) (refl, refl, refl, refl, refl)

  -- The energy of a session: after a `StartTransaction` call with a meter reading and any messages that neither start
  -- nor stop a session, a `StopTransaction` call leaves the difference of its reading and the first one, where that
  -- fits in 64 bits. It also leaves its reading and its reason, and no open session.
  pub session_energy :
      (start stop : String) (a b : Members) (between : List (String × OcppMessageType × String))
      (before : ChargePointState) (first last : ℤ)
      → ocpp_args from_str start (call "StartTransaction") ≡ some a
      → ocpp_args from_str stop (call "StopTransaction") ≡ some b
      → get_i64 a "meterStart" ≡ some first
      → get_i64 b "meterStop" ≡ some last
      → All (λ m. is_within m ≡ true) between
      → pos_part (last -ℤ first) < 2 ^ 63
      → neg_part (last -ℤ first) ≤ 2 ^ 63
      → let opened =
          (apply from_str stamp "StartTransaction" (call "StartTransaction") start before).1 in
        let closed =
          (apply from_str stamp "StopTransaction"
            (call "StopTransaction")
            stop
            (apply_all between opened)).1 in
        (closed.last_session_energy_wh ≡ some (last -ℤ first))
        × (closed.last_meter_stop_wh ≡ some last)
        × (closed.last_stop_reason ≡ get_str b "reason")
        × (closed.transaction_id ≡ none)
        × (closed.meter_start_wh ≡ none)
  session_energy start stop a b between before first last ea eb m n within fits fits' =
      let opened =
        (apply from_str stamp "StartTransaction" (call "StartTransaction") start before).1 in
      let (u, timed) =
        apply-Timed "StartTransaction" (call "StartTransaction") start a before (on_start a before)
          ea refl in
      let reading : (apply_all between opened).meter_start_wh ≡ some first =
        apply_all-keeps between opened within ∙ ap (λ x. x.meter_start_wh) timed ∙ m in
      let (energy, meter, reason, no_transaction, no_start) =
        stop-energy stop b (apply_all between opened) first last eb reading n in
      (
        energy ∙ ap some (sub_i64-exact last first fits fits'),
        meter,
        reason,
        no_transaction,
        no_start,
      )

-- the state that a limit's result leaves, but for the times
abbrev noted : CommandResult → ChargePointState → ChargePointState
noted r s = record s {
  current_limit_status = some (status_str r.status);
  current_limit_a = if is_accepted r.status then standing r else s.current_limit_a;
}

apply_command_result-noted :
    (stamp : String) (r : CommandResult) (s : ChargePointState)
    → is_limit_result r ≡ true
    → (o o' : Option String) × ((apply_command_result stamp r s).1
        ≡ record (noted r s) { current_limit_updated = o; last_updated = o' })
unfolding apply_command_result
apply_command_result-noted stamp r s limit = elim (Bool-cases (unchanged (noted r s) s)) [
  | inl e ↦ rw (limit, e, apply_command_result) (_, _, refl)
  | inr e ↦ rw (limit, e, apply_command_result) (_, _, refl)
]

limit_of-status :
    (r : CommandResult) (s : ChargePointState)
    → ((r.status ≡ accepted) × ((noted r s).current_limit_a ≡ standing r))
      ⊎ ((r.status ≢ accepted) × ((noted r s).current_limit_a ≡ s.current_limit_a))
limit_of-status r s = ground arith

-- A result of a limit command sets the retained status; an accepted one also sets the standing limit, to
-- the applied limit of a profile and to none for a clear; any other outcome keeps the limit that
-- stands. The results of other commands change nothing, and no result changes what is kept of sessions.
pub apply_command_result_lem :
    (stamp : String) (r : CommandResult) (s : ChargePointState)
    → let s' = (apply_command_result stamp r s).1 in
      (((is_limit_result r ≡ false) × (s' ≡ s))
        ⊎ ((is_limit_result r ≡ true)
            × (s'.current_limit_status ≡ some (status_str r.status))
            × (((r.status ≡ accepted) × (s'.current_limit_a ≡ standing r))
                ⊎ ((r.status ≢ accepted) × (s'.current_limit_a ≡ s.current_limit_a)))))
      × (s'.last_session_energy_wh ≡ s.last_session_energy_wh)
      × (s'.transaction_id ≡ s.transaction_id)
unfolding apply_command_result
apply_command_result_lem stamp r s = elim (Bool-cases (is_limit_result r)) [
  | inl limit ↦
      let (o, o', e) = apply_command_result-noted stamp r s limit in
      rw e (inr (limit, refl, limit_of-status r s), refl, refl)
  | inr other ↦ rw (other, apply_command_result) (inl (refl, refl), refl, refl)
]
