-- ===== src/Session/Sending.antt =====
-- When the proxy sends a call of its own, and to whom (src/session.rs).
use ocpp_proxy.Base.{
  String, false, ◌||◌, none, some, List, [], ◌∷◌, ◌++◌, ◌≡◌, refl, ◌∙◌, ◌⊎◌, inl, inr, arith, ok,
  Result-cases, Bool-cases,
}
use ocpp_proxy.Models.{central_to_charger}
use ocpp_proxy.Config.Charging.{ChargingConfig}
use ocpp_proxy.Command.{CommandRequest, CommandResult, InFlight, PreparedCall, for_request, invalid}
use ocpp_proxy.Command.Queue.{LocalCallQueue, has_in_flight, is_idle, next_unique_id, set_in_flight}
use ocpp_proxy.Forwarder.{MessageForwarder, has_recent_pending_call}
use ocpp_proxy.Session.Wire.{Wire, Libraries, Moment, charger_sink}
use ocpp_proxy.Session.LocalCalls.{
  emit, prepared_as, after_send, send_next, send_local_calls, central_call_grace,
}

module _ {W : Type 0} (wire : Wire W) (lib : Libraries) (id : String) (charging : ChargingConfig)
    (at : Moment) where
  open wire use {to_charger, to_central}

  -- Nothing was sent to the charger, or one prepared call was, which is now in flight.
  abbrev pub SentAtMostOne : W → LocalCallQueue → W → Type 0
  SentAtMostOne w q w' =
      (to_charger w' ≡ to_charger w)
      ⊎ ((f : InFlight) × (before : LocalCallQueue) × (q.in_flight ≡ some f)
          × (prepared_as wire lib id charging at f.request before ≡ ok f.prepared)
          × (to_charger w' ≡ to_charger w ++ f.prepared.raw ∷ []))

  emit-charger : (r : CommandResult) (w : W) → to_charger (emit wire lib id r w) ≡ to_charger w
  unfolding emit
  emit-charger r w = wire.publish-charger _ w

  emit-central : (r : CommandResult) (w : W) → to_central (emit wire lib id r w) ≡ to_central w
  unfolding emit
  emit-central r w = wire.publish-central _ w

  after_send_lem :
      (request : CommandRequest) (p : PreparedCall) (before q : LocalCallQueue) (w : W)
      → prepared_as wire lib id charging at request before ≡ ok p
      → let r = after_send wire lib id charging at request p q (charger_sink wire p.raw w) in
        (to_central r.2 ≡ to_central w) × SentAtMostOne w r.1 r.2
  unfolding charger_sink set_in_flight
  after_send_lem request p before q w e = elim (Bool-cases (wire.send_charger p.raw w).0) [
    | inl sent ↦
        rw sent
          (wire.charger-central p.raw w, inr (_, before, refl, e, wire.charger-ok p.raw w sent))
    | inr lost ↦ rw lost (
      emit-central _ _ ∙ wire.charger-central p.raw w,
      inl (emit-charger _ _ ∙ wire.charger-err p.raw w lost),
    )
  ]

  send_next_lem :
      (rs : List CommandRequest) (q : LocalCallQueue) (w : W)
      → let r = send_next wire lib id charging at rs q w in
        (to_central r.2 ≡ to_central w) × SentAtMostOne w r.1 r.2
  unfolding send_next
  send_next_lem [] q w = (refl, inl refl)
  send_next_lem (request ∷ rest) q w =
      elim (Result-cases
        (prepared_as wire lib id charging at request (record q { queued = rest }))) [
          | inl (p, e) ↦
              rw (e, send_next) (after_send_lem request p (record q { queued = rest }) _ w e)
          | inr (reason, e) ↦
              let result = for_request at.stamp request invalid (some reason) in
              let ih =
                send_next_lem rest (next_unique_id at.millis (record q { queued = rest })).1
                  (emit wire lib id result w) in
              rw (e, send_next) (ih.0 ∙ emit-central result w, rw (emit-charger result w) at ih.1)
        ]

  -- The proxy's own calls go to the charger and never to the Central System. At most one is sent at a
  -- time; it is then the call in flight, prepared for its request, and it is sent only where none was
  -- in flight before and no recent call of the Central System awaits the charger's answer.
  pub send_local_calls_lem :
      (f : MessageForwarder) (q : LocalCallQueue) (w : W)
      → let r = send_local_calls wire lib id charging at f q w in
        (to_central r.2 ≡ to_central w)
        × ((to_charger r.2 ≡ to_charger w)
            ⊎ ((q.in_flight ≡ none)
                × (has_recent_pending_call lib.from_std at.now central_to_charger central_call_grace
                      f
                    ≡ false)
                × SentAtMostOne w r.1 r.2))
  unfolding send_local_calls
  send_local_calls_lem f q w = elim (Bool-cases (has_in_flight q || is_idle q)) [
    | inl e ↦ rw e (refl, inl refl)
    | inr e ↦
        elim (Bool-cases
          (has_recent_pending_call lib.from_std at.now central_to_charger central_call_grace f)) [
            | inl busy ↦ rw (e, busy) (refl, inl refl)
            | inr clear ↦
                let sent = send_next_lem q.queued q w in
                rw (e, clear) (sent.0, inr (ground arith, refl, sent.1))
          ]
  ]
