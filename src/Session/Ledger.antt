-- ===== src/Session/Ledger.antt =====
-- Which requests a session has reported, and which it still owes a result (src/session.rs).
pub mod Steps
pub mod Loops
pub mod Sessions
pub mod Ending
use ocpp_proxy.Base.{
  ℕ, ◌+◌, String, Bool, true, false, Option, none, some, List, [], ◌∷◌, ◌++◌, ◌≡◌, refl, ap, sym,
  ◌∙◌, inl, inr, arith, ok, err, Result, if◌then◌else◌, length, retain, Result-cases, Bool-cases,
  ◌||◌,
}
use ocpp_proxy.Json.{Json}
use ocpp_proxy.Errors.{ProxyError}
use ocpp_proxy.Models.{OcppFrame, Direction, central_to_charger}
use ocpp_proxy.Config.Charging.{ChargingConfig}
use ocpp_proxy.Events.{MqttEvent, message_forwarded, state_change, command_result}
use ocpp_proxy.Command.{
  CommandRequest, CommandResult, CommandStatus, InFlight, PreparedCall, for_request, for_in_flight,
  invalid,
}
use ocpp_proxy.Command.Queue.{LocalCallQueue, has_in_flight, is_idle, next_unique_id, set_in_flight}
use ocpp_proxy.Command.Queue.Laws.{number}
use ocpp_proxy.Forwarder.{MessageForwarder, forward_message, has_recent_pending_call}
use ocpp_proxy.Session.Wire.{Wire, Libraries, Moment, charger_sink, upstream_sink}
use ocpp_proxy.Session.LocalCalls.{
  emit, prepared_as, after_send, send_next, send_local_calls, central_call_grace,
}
use ocpp_proxy.Session.Loop.{Session, then_send}

-- Requests are told apart by a test on their ids.
module _ (p : String → Bool) where
  abbrev pub asked : List CommandRequest → ℕ
  asked rs = number (λ r. p r.id) rs

  pub asked-cons :
      (r : CommandRequest) (rs : List CommandRequest) → asked (r ∷ rs) ≡ asked (r ∷ []) + asked rs
  asked-cons r rs = ground arith

  abbrev pub asked_in_flight : Option InFlight → ℕ
  asked_in_flight none = 0
  asked_in_flight (some f) = asked (f.request ∷ [])

  -- the requests that wait or are in flight
  abbrev pub outstanding : LocalCallQueue → ℕ
  outstanding q = asked q.queued + asked_in_flight q.in_flight

  -- the results among the events that the publisher was offered
  abbrev pub reported : List MqttEvent → ℕ
  reported [] = 0
  reported (command_result c r ∷ es) = (if p r.id then 1 else 0) + reported es
  reported (message_forwarded c f d a ∷ es) = reported es
  reported (state_change c u d ∷ es) = reported es

  pub reported-append : (xs ys : List MqttEvent) → reported (xs ++ ys) ≡ reported xs + reported ys
  reported-append [] ys = omega arith
  reported-append (command_result c r ∷ es) ys = omega (arith, reported-append es ys)
  reported-append (message_forwarded c f d a ∷ es) ys = omega (arith, reported-append es ys)
  reported-append (state_change c u d ∷ es) ys = omega (arith, reported-append es ys)

module _ {W : Type 0} (p : String → Bool) (wire : Wire W) (lib : Libraries) (id : String) where
  open wire use {offered}

  -- the results that the publisher was offered
  abbrev pub results : W → ℕ
  results w = reported p (offered w)

  emit-results :
      (r : CommandResult) (w : W)
      → results (emit wire lib id r w) ≡ results w + (if p r.id then 1 else 0)
  unfolding emit
  emit-results r w =
      rw (wire.publish-offered (command_result id r) w)
        (omega (arith, reported-append p (offered w) (command_result id r ∷ [])))

  pub emit_request :
      (stamp : String) (r : CommandRequest) (status : CommandStatus) (detail : Option String)
      (w : W)
      → results (emit wire lib id (for_request stamp r status detail) w)
        ≡ results w + asked p (r ∷ [])
  unfolding for_request
  emit_request stamp r status detail w =
      ground (arith, emit-results (for_request stamp r status detail) w)

  pub emit_in_flight :
      (stamp : String) (f : InFlight) (status : CommandStatus) (j : Option Json)
      (detail : Option String) (w : W)
      → results (emit wire lib id (for_in_flight lib.from_str stamp f status j detail) w)
        ≡ results w + asked p (f.request ∷ [])
  unfolding for_in_flight for_request
  emit_in_flight stamp f status j detail w =
      ground (arith, emit-results (for_in_flight lib.from_str stamp f status j detail) w)

  -- an event of another kind is no result
  pub publish-results :
      (e : MqttEvent) (w : W) → reported p (e ∷ []) ≡ 0 → results (wire.try_send e w) ≡ results w
  publish-results e w none_in =
      rw (wire.publish-offered e w) (omega (arith, reported-append p (offered w) (e ∷ []), none_in))

  -- forwarding a frame reports no request
  pub forward_message-results :
      (send : String → W → Result ProxyError (Unit {0}) × W) (frame : OcppFrame) (d : Direction)
      (now : ℕ) (f : MessageForwarder) (w : W)
      → results (send frame.raw w).1 ≡ results w
      → results (forward_message send wire.try_send frame d now f w).2 ≡ results w
  unfolding forward_message
  forward_message-results send frame d now f w same = elim (Result-cases (send frame.raw w).0) [
    | inl (u, sent) ↦ rw sent (publish-results _ _ refl ∙ same)
    | inr (e, lost) ↦ rw lost same
  ]

  pub charger_sink-results :
      (raw : String) (w : W) → results (charger_sink wire raw w).1 ≡ results w
  unfolding charger_sink
  charger_sink-results raw w = ap (reported p) (wire.charger-offered raw w)

  pub upstream_sink-results :
      (raw : String) (w : W) → results (upstream_sink wire raw w).1 ≡ results w
  unfolding upstream_sink
  upstream_sink-results raw w = ap (reported p) (wire.central-offered raw w)

  module _ (charging : ChargingConfig) (at : Moment) where
    after_send_ledger :
        (request : CommandRequest) (c : PreparedCall) (q : LocalCallQueue)
        (sent : Result ProxyError (Unit {0})) (w : W)
        → q.in_flight ≡ none
        → let r = after_send wire lib id charging at request c q (sent, w) in
          results r.2 + outstanding p r.1 ≡ results w + asked p q.queued + asked p (request ∷ [])
    unfolding set_in_flight
    after_send_ledger request c q (ok u) w clear = omega arith
    after_send_ledger request c q (err e) w clear =
        rw clear (omega (arith, emit_request at.stamp request _ _ w))

    send_next_ledger :
        (rs : List CommandRequest) (q : LocalCallQueue) (w : W)
        → q.in_flight ≡ none
        → let r = send_next wire lib id charging at rs q w in
          results r.2 + outstanding p r.1 ≡ results w + asked p rs
    unfolding send_next next_unique_id
    send_next_ledger [] q w clear = rw clear (omega arith)
    send_next_ledger (request ∷ rest) q w clear =
        elim (Result-cases
          (prepared_as wire lib id charging at request (record q { queued = rest }))) [
            | inl (c, e) ↦
                let numbered = (next_unique_id at.millis (record q { queued = rest })).1 in
                let (sent, w') = charger_sink wire c.raw w in
                rw (e, send_next)
                  (omega (
                    arith,
                    after_send_ledger request c numbered sent w' clear,
                    charger_sink-results c.raw w,
                    asked-cons p request rest,
                  ))
            | inr (reason, e) ↦
                let numbered = (next_unique_id at.millis (record q { queued = rest })).1 in
                let w' = emit wire lib id (for_request at.stamp request invalid (some reason)) w in
                rw (e, send_next)
                  (omega (
                    arith,
                    send_next_ledger rest numbered w' clear,
                    emit_request at.stamp request invalid (some reason) w,
                    asked-cons p request rest,
                  ))
          ]

    -- Sending local calls loses no request: each one is reported, waits or is in flight.
    pub send_local_calls_ledger :
        (f : MessageForwarder) (q : LocalCallQueue) (w : W)
        → let r = send_local_calls wire lib id charging at f q w in
          results r.2 + outstanding p r.1 ≡ results w + outstanding p q
    unfolding send_local_calls
    send_local_calls_ledger f q w = elim (Bool-cases (has_in_flight q || is_idle q)) [
      | inl e ↦ rw e refl
      | inr e ↦
          elim (Bool-cases
            (has_recent_pending_call lib.from_std at.now central_to_charger central_call_grace f)) [
              | inl busy ↦ rw (e, busy) refl
              | inr free ↦
                  let clear : q.in_flight ≡ none = ground (arith, e) in
                  rw (e, free)
                    (omega
                      (arith, send_next_ledger q.queued q w clear, ap (asked_in_flight p) clear))
            ]
    ]

    pub then_send_ledger :
        (s : Session) (w : W)
        → let r = then_send wire lib id charging at s w in
          results r.2 + outstanding p r.1.local ≡ results w + outstanding p s.local
    unfolding then_send
    then_send_ledger s w = send_local_calls_ledger s.forwarder s.local w
