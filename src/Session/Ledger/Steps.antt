-- ===== src/Session/Ledger/Steps.antt =====
-- The ledger of requests over one step and over the forwarding loop (src/session.rs).
use ocpp_proxy.Base.{
  ℕ, ◌+◌, String, Bool, [], ◌∷◌, ◌≡◌, ap, inl, inr, arith, Result-cases, Bool-cases, Option-cases,
}
use ocpp_proxy.Models.{OcppFrame, parse, charger_to_central, central_to_charger}
use ocpp_proxy.State.{record_forwarded}
use ocpp_proxy.Config.Charging.{ChargingConfig}
use ocpp_proxy.Command.{InFlight}
use ocpp_proxy.Command.Queue.{LocalCallQueue, take_response, is_idle, is_ours}
use ocpp_proxy.Forwarder.{MessageForwarder, forward_upstream, forward_downstream, forward_message}
use ocpp_proxy.Session.Wire.{Wire, Libraries, Moment, charger_sink, upstream_sink}
use ocpp_proxy.Session.LocalCalls.{complete_local_call}
use ocpp_proxy.Session.Loop.{
  Session, LoopOutcome, Incoming, text, binary, close, other, error, ended, ping, is_call,
  forward_up, on_charger_frame, on_charger, on_charger_text, on_central, on_central_text,
}
use ocpp_proxy.Session.Ledger.{
  asked, asked_in_flight, outstanding, reported, results, emit_in_flight, charger_sink-results,
  upstream_sink-results, forward_message-results, then_send_ledger,
}

module _ {W : Type 0} (p : String → Bool) (wire : Wire W) (lib : Libraries) (id : String)
    (charging : ChargingConfig) where
  open wire use {offered}

  -- After a step, the results given and the requests outstanding are those before and `n` more.
  abbrev pub Balanced : ℕ → Session → W → LoopOutcome × Session × W → Type 0
  Balanced n s w r =
      results p wire lib id r.2 + outstanding p r.1.local
      ≡ results p wire lib id w + outstanding p s.local + n

  module _ (at : Moment) where
    forward_up_ledger :
        (raw : String) (frame : OcppFrame) (s : Session) (w : W)
        → Balanced 0 s w (forward_up wire lib id charging at raw frame s w)
    unfolding forward_up ocpp_proxy.Forwarder.buffer_upstream
    forward_up_ledger raw frame s w =
        let (sent, f, w') =
          forward_upstream (upstream_sink wire) wire.try_send frame at.now s.forwarder w in
        let same =
          forward_message-results p wire lib id (upstream_sink wire) frame charger_to_central at.now
            s.forwarder w (upstream_sink-results p wire lib id frame.raw w) in
        elim (Result-cases sent) [
          | inl (u, ok_) ↦ elim (Bool-cases (is_idle s.local)) [
            | inl idle ↦ rw (ok_, idle, forward_up) (omega (arith, same))
            | inr busy ↦
                rw (ok_, busy, forward_up)
                  (omega (
                    arith,
                    same,
                    then_send_ledger p wire lib id charging at
                        (record s {
                          forwarder = f;
                          manager = record_forwarded charger_to_central s.manager;
                        })
                        w',
                  ))
          ]
          | inr (e, lost) ↦ elim (Result-cases (parse lib.from_str at.now raw)) [
            | inl (again, parsed) ↦ rw (lost, parsed, forward_up) (omega (arith, same))
            | inr (e', bad) ↦ rw (lost, bad, forward_up) (omega (arith, same))
          ]
        ]

    take_response_ledger :
        (t : String) (q : LocalCallQueue)
        → asked_in_flight p (take_response t q).0 + outstanding p (take_response t q).1
          ≡ outstanding p q
    unfolding take_response
    take_response_ledger t q = elim (Bool-cases (is_ours t q)) [
      | inl ours ↦ rw ours (omega arith)
      | inr other_id ↦ rw other_id (omega arith)
    ]

    complete-results :
        (f : InFlight) (frame : OcppFrame) (w : W)
        → results p wire lib id (complete_local_call wire lib id at f frame w)
          ≡ results p wire lib id w + asked p (f.request ∷ [])
    unfolding complete_local_call
    complete-results f frame w = emit_in_flight p wire lib id at.stamp f _ _ _ w

    on_charger_frame_ledger :
        (raw : String) (frame : OcppFrame) (s : Session) (w : W)
        → Balanced 0 s w (on_charger_frame wire lib id charging at raw frame s w)
    unfolding on_charger_frame
    on_charger_frame_ledger raw frame s w = elim (Bool-cases (is_call frame.message_type)) [
      | inl c ↦ rw (c, on_charger_frame) (forward_up_ledger raw frame s w)
      | inr c ↦ elim (Option-cases (take_response frame.unique_id s.local).0) [
        | inl unclaimed ↦ rw (c, unclaimed, on_charger_frame) (forward_up_ledger raw frame s w)
        | inr (f, claimed) ↦
            let taken = (take_response frame.unique_id s.local).1 in
            let w' = complete_local_call wire lib id at f frame w in
            rw (c, claimed, on_charger_frame)
              (omega (
                arith,
                then_send_ledger p wire lib id charging at (record s { local = taken }) w',
                complete-results f frame w,
                take_response_ledger frame.unique_id s.local,
                ap (asked_in_flight p) claimed,
              ))
      ]
    ]

    pub on_charger_ledger :
        (m : Incoming) (s : Session) (w : W)
        → Balanced 0 s w (on_charger wire lib id charging at m s w)
    unfolding on_charger on_charger_text
    on_charger_ledger (text raw) s w = elim (Result-cases (parse lib.from_str at.now raw)) [
      | inl (frame, e) ↦ rw (e, on_charger_text) (on_charger_frame_ledger raw frame s w)
      | inr (e, bad) ↦
          rw (bad, on_charger_text) (omega (arith, upstream_sink-results p wire lib id raw w))
    ]
    on_charger_ledger binary s w = omega arith
    on_charger_ledger close s w = omega arith
    on_charger_ledger other s w = omega arith
    on_charger_ledger error s w = omega arith
    on_charger_ledger ended s w = omega arith
    on_charger_ledger ping s w = omega arith

    on_central_text_ledger :
        (raw : String) (s : Session) (w : W)
        → Balanced 0 s w (on_central_text wire lib id charging at raw s w)
    unfolding on_central_text
    on_central_text_ledger raw s w = elim (Result-cases (parse lib.from_str at.now raw)) [
      | inl (frame, e) ↦
          let same =
            forward_message-results p wire lib id (charger_sink wire) frame central_to_charger
              at.now s.forwarder w (charger_sink-results p wire lib id frame.raw w) in
          elim (Result-cases
            (forward_downstream (charger_sink wire) wire.try_send frame at.now s.forwarder w).0) [
              | inl (u, sent) ↦ rw (e, sent, on_central_text) (omega (arith, same))
              | inr (l, closed) ↦ rw (e, closed, on_central_text) (omega (arith, same))
            ]
      | inr (e, bad) ↦
          rw (bad, on_central_text) (omega (arith, charger_sink-results p wire lib id raw w))
    ]

    pub on_central_ledger :
        (m : Incoming) (s : Session) (w : W)
        → Balanced 0 s w (on_central wire lib id charging at m s w)
    unfolding on_central
    on_central_ledger (text raw) s w = on_central_text_ledger raw s w
    on_central_ledger ping s w = omega (arith, ap (reported p) (wire.pong-offered w))
    on_central_ledger close s w = omega arith
    on_central_ledger ended s w = omega arith
    on_central_ledger binary s w = omega arith
    on_central_ledger other s w = omega arith
    on_central_ledger error s w = omega arith
