-- ===== src/Session/Ledger/Loops.antt =====
-- The ledger of requests where commands arrive, expire and are sent, and over the loop (src/session.rs).
use ocpp_proxy.Base.{
  ℕ, ◌+◌, String, Bool, Option, none, some, List, [], ◌∷◌, ◌≡◌, inl, inr, arith, if◌then◌else◌,
  Bool-cases,
}
use ocpp_proxy.Config.Charging.{ChargingConfig}
use ocpp_proxy.Command.{CommandRequest, InFlight}
use ocpp_proxy.Command.Queue.{LocalCallQueue, push, expire, is_idle, is_overdue}
use ocpp_proxy.Command.Queue.Laws.{push_conserves, expire_conserves}
use ocpp_proxy.Session.Wire.{Wire, Libraries, Moment}
use ocpp_proxy.Session.Loop.{
  Session, running, charger_gone, upstream_lost, shutdown, Event, from_charger, from_central,
  command, command_tick, housekeeping, cancelled, on_command, report_displaced, report_expired,
  report_unanswered, on_command_tick, on_housekeeping, step, forward_loop,
}
use ocpp_proxy.Session.Conservation.{LoopOutcome-cases}
use ocpp_proxy.Session.Ledger.{
  asked, asked-cons, asked_in_flight, results, emit_request, emit_in_flight, then_send_ledger,
}
use ocpp_proxy.Session.Ledger.Steps.{Balanced, on_charger_ledger, on_central_ledger}

module _ {W : Type 0} (p : String → Bool) (wire : Wire W) (lib : Libraries) (id : String)
    (charging : ChargingConfig) where
  open wire use {offered}

  module _ (at : Moment) where
    report_displaced-results :
        (rs : List CommandRequest) (w : W)
        → results p wire lib id (report_displaced wire lib id charging at rs w)
          ≡ results p wire lib id w + asked p rs
    unfolding report_displaced
    report_displaced-results [] w = omega arith
    report_displaced-results (r ∷ rs) w = omega (
      arith,
      report_displaced-results rs _,
      emit_request p wire lib id at.stamp r _ _ w,
      asked-cons p r rs,
    )

    report_expired-results :
        (rs : List CommandRequest) (w : W)
        → results p wire lib id (report_expired wire lib id charging at rs w)
          ≡ results p wire lib id w + asked p rs
    unfolding report_expired
    report_expired-results [] w = omega arith
    report_expired-results (r ∷ rs) w = omega (
      arith,
      report_expired-results rs _,
      emit_request p wire lib id at.stamp r _ _ w,
      asked-cons p r rs,
    )

    report_unanswered-results :
        (f : Option InFlight) (w : W)
        → results p wire lib id (report_unanswered wire lib id charging at f w)
          ≡ results p wire lib id w + asked_in_flight p f
    unfolding report_unanswered
    report_unanswered-results none w = omega arith
    report_unanswered-results (some f) w = emit_in_flight p wire lib id at.stamp f _ _ _ w

    on_command_ledger :
        (r : CommandRequest) (s : Session) (w : W)
        → Balanced p wire lib id charging
            (asked p (r ∷ []))
            s
            w
            (on_command wire lib id charging at (some r) s w)
    unfolding on_command push
    on_command_ledger r s w =
        let (displaced, local) = push r s.local in
        let w' = report_displaced wire lib id charging at displaced w in
        omega (
          arith,
          then_send_ledger p wire lib id charging at (record s { local = local }) w',
          report_displaced-results displaced w,
          push_conserves (λ x. p x.id) r s.local,
        )

    expire_in_flight :
        (q : LocalCallQueue)
        → let (expired, unanswered, local) = expire lib.from_std at.now at.instant q in
          asked_in_flight p unanswered + asked_in_flight p local.in_flight
          ≡ asked_in_flight p q.in_flight
    unfolding expire
    expire_in_flight q = elim (Bool-cases (is_overdue at.instant q)) [
      | inl e ↦ rw e (omega arith)
      | inr e ↦ rw e (omega arith)
    ]

    on_command_tick_ledger :
        (s : Session) (w : W)
        → Balanced p wire lib id charging 0 s w (on_command_tick wire lib id charging at s w)
    unfolding on_command_tick
    on_command_tick_ledger s w =
        let (expired, unanswered, local) = expire lib.from_std at.now at.instant s.local in
        let w' = report_expired wire lib id charging at expired w in
        let w'' = report_unanswered wire lib id charging at unanswered w' in
        let sent = then_send_ledger p wire lib id charging at (record s { local = local }) w'' in
        let waited = expire_conserves (λ x. p x.id) lib.from_std at.now at.instant s.local in
        let gone = report_expired-results expired w in
        let given_up = report_unanswered-results unanswered w' in
        omega (arith, sent, waited, gone, given_up, expire_in_flight s.local)

  -- the requests that an event has the session read from its command channel
  abbrev pub asked_by : Event → Session → ℕ
  asked_by (command (some r)) s = if s.commands_open then asked p (r ∷ []) else 0
  asked_by _ s = 0

  step_ledger :
      (at : Moment) (e : Event) (s : Session) (w : W)
      → Balanced p wire lib id charging (asked_by e s) s w (step wire lib id charging at e s w)
  unfolding step on_command on_housekeeping
  step_ledger at (from_charger m) s w = on_charger_ledger p wire lib id charging at m s w
  step_ledger at (from_central m) s w = on_central_ledger p wire lib id charging at m s w
  step_ledger at (command none) s w = elim (Bool-cases s.commands_open) [
    | inl e ↦ rw e (omega arith)
    | inr e ↦ rw e (omega arith)
  ]
  step_ledger at (command (some r)) s w = elim (Bool-cases s.commands_open) [
    | inl e ↦ rw e (on_command_ledger at r s w)
    | inr e ↦ rw e (omega arith)
  ]
  step_ledger at command_tick s w = elim (Bool-cases (is_idle s.local)) [
    | inl e ↦ rw e (omega arith)
    | inr e ↦ rw e (on_command_tick_ledger at s w)
  ]
  step_ledger at housekeeping s w = omega arith
  step_ledger at cancelled s w = omega arith

  -- the requests that the loop reads
  abbrev pub asked_by_loop : List (Moment × Event) → Session → W → ℕ
  asked_by_loop [] s w = 0
  asked_by_loop ((at, e) ∷ es) s w =
      let (o, s', w') = step wire lib id charging at e s w in
      let rest = asked_by_loop es s' w' in
      asked_by e s + elim o [ running ↦ rest | charger_gone ↦ 0 | upstream_lost ↦ 0 | shutdown ↦ 0 ]

  pub forward_loop_ledger :
      (es : List (Moment × Event)) (s : Session) (w : W)
      → Balanced p wire lib id charging
          (asked_by_loop es s w)
          s
          w
          (forward_loop wire lib id charging es s w)
  unfolding forward_loop
  forward_loop_ledger [] s w = omega arith
  forward_loop_ledger ((at, e) ∷ es) s w =
      let (o, s', w') = step wire lib id charging at e s w in
      let first = step_ledger at e s w in
      elim (LoopOutcome-cases o) [
        | inl on ↦
            rw (on, forward_loop, asked_by_loop)
              (omega (arith, first, forward_loop_ledger es s' w'))
        | inr (inl gone) ↦ rw (gone, forward_loop, asked_by_loop) (omega (arith, first))
        | inr (inr (inl gone)) ↦ rw (gone, forward_loop, asked_by_loop) (omega (arith, first))
        | inr (inr (inr gone)) ↦ rw (gone, forward_loop, asked_by_loop) (omega (arith, first))
      ]
