-- ===== src/Session/Transparency.antt =====
-- What becomes of a text that a peer sends (src/session.rs).
use ocpp_proxy.Base.{
  subst, String, Bool, true, false, if◌then◌else◌, eq_iff, none, some, [], ◌∷◌, ◌++◌, ◌≡◌, refl,
  ◌∙◌, ◌⊎◌, inl, inr, arith, ok, err, Result-cases, Bool-cases, Option-cases, push_bounded,
}
use ocpp_proxy.Errors.{ProxyError}
use ocpp_proxy.Models.Frames.{parse-raw}
use ocpp_proxy.Models.{OcppFrame, parse, charger_to_central}
use ocpp_proxy.State.{record_forwarded}
use ocpp_proxy.Command.Queue.Answering.{take_response_lem}
use ocpp_proxy.Config.Charging.{ChargingConfig}
use ocpp_proxy.Command.{InFlight}
use ocpp_proxy.Command.Queue.{LocalCallQueue, is_ours, take_response, is_idle}
use ocpp_proxy.Forwarder.{
  MessageForwarder, forward_upstream, forward_downstream, forward_message, buffer_upstream,
}
use ocpp_proxy.Session.Wire.{Wire, Libraries, Moment, upstream_sink}
use ocpp_proxy.Session.LocalCalls.{emit, complete_local_call}
use ocpp_proxy.Session.Sending.{send_local_calls_lem}
use ocpp_proxy.Session.Loop.{
  Session, LoopOutcome, upstream_lost, is_call, then_send, forward_up, on_charger_frame,
  on_charger_text,
}

-- the frame is an answer to the call in flight
abbrev pub answers : OcppFrame → LocalCallQueue → Bool
answers frame q = if is_call frame.message_type then false else is_ours frame.unique_id q

answered :
    (f : InFlight) (frame : OcppFrame) (q : LocalCallQueue)
    → q.in_flight ≡ some f
    → f.prepared.unique_id ≡ frame.unique_id
    → is_ours frame.unique_id q ≡ true
answered f frame q e same = rw e ((eq_iff f.prepared.unique_id frame.unique_id).1 same)

unanswered :
    (frame : OcppFrame) (q : LocalCallQueue)
    → (take_response frame.unique_id q).0 ≡ none
    → is_ours frame.unique_id q ≡ false
unfolding take_response
unanswered frame q unclaimed = elim (Option-cases q.in_flight) [
  | inl e ↦ rw e refl
  | inr (f, e) ↦ ground (arith, e)
]

module _ {W : Type 0} (wire : Wire W) (lib : Libraries) (id : String) (charging : ChargingConfig)
    (at : Moment) where
  open wire use {to_charger, to_central}

  pub then_send-central :
      (s : Session) (w : W) → to_central (then_send wire lib id charging at s w).2 ≡ to_central w
  unfolding then_send
  then_send-central s w = (send_local_calls_lem wire lib id charging at s.forwarder s.local w).0

  complete-central :
      (f : InFlight) (frame : OcppFrame) (w : W)
      → to_central (complete_local_call wire lib id at f frame w) ≡ to_central w
  unfolding complete_local_call emit
  complete-central f frame w = wire.publish-central _ w

  -- The text was handed to the Central System and the buffer is unchanged, or the upstream was lost and the frame was buffered.
  abbrev pub ForwardedUp : String → OcppFrame → Session → W → LoopOutcome × Session × W → Type 0
  ForwardedUp raw frame s w r =
      ((to_central r.2 ≡ to_central w ++ raw ∷ [])
        × (r.1.forwarder.upstream_buffer ≡ s.forwarder.upstream_buffer))
      ⊎ ((r.0 ≡ upstream_lost)
          × (to_central r.2 ≡ to_central w)
          × (r.1.forwarder.upstream_buffer
              ≡ push_bounded s.forwarder.max_buffer_size frame s.forwarder.upstream_buffer))

  -- a frame was handed over, or its send failed and nothing changed
  forward_upstream-cases :
      (frame : OcppFrame) (f : MessageForwarder) (w : W)
      → let r = forward_upstream (upstream_sink wire) wire.try_send frame at.now f w in
        ((r.0 ≡ ok tt)
          × (to_central r.2 ≡ to_central w ++ frame.raw ∷ [])
          × (r.1.upstream_buffer ≡ f.upstream_buffer))
        ⊎ ((e : ProxyError) × (r.0 ≡ err e) × (r.1 ≡ f) × (to_central r.2 ≡ to_central w))
  unfolding forward_message upstream_sink ocpp_proxy.Forwarder.resolve_action
  forward_upstream-cases frame f w = elim (Result-cases (wire.send_central frame.raw w).0) [
    | inl (u, sent) ↦
        rw sent (inl (refl, wire.publish-central _ _ ∙ wire.central-ok frame.raw w sent, refl))
    | inr (e, lost) ↦ rw lost (inr (_, refl, refl, wire.central-err frame.raw w e lost))
  ]

  forward_up_lem :
      (raw : String) (frame : OcppFrame) (s : Session) (w : W)
      → parse lib.from_str at.now raw ≡ ok frame
      → ForwardedUp frame.raw frame s w (forward_up wire lib id charging at raw frame s w)
  unfolding forward_up buffer_upstream then_send
  forward_up_lem raw frame s w parsed = elim (forward_upstream-cases frame s.forwarder w) [
    | inl (sent, handed, kept) ↦ elim (Bool-cases (is_idle s.local)) [
      | inl idle ↦ rw (sent, idle, forward_up) (inl (handed, kept))
      | inr busy ↦
          rw (sent, busy, forward_up)
            (inl (
              then_send-central
                    (record s {
                      forwarder =
                          (forward_upstream (upstream_sink wire) wire.try_send frame at.now
                            s.forwarder w).1;
                      manager = record_forwarded charger_to_central s.manager;
                    })
                    _
                  ∙ handed,
              kept,
            ))
    ]
    | inr (e, lost, same, kept) ↦ rw (lost, parsed, same, forward_up) (inr (refl, kept, refl))
  ]

  -- The frame answered the call in flight, and the Central System was handed nothing.
  abbrev pub Claimed : OcppFrame → Session → W → LoopOutcome × Session × W → Type 0
  Claimed frame s w r =
      (is_call frame.message_type ≡ false)
      × ((f : InFlight) × (s.local.in_flight ≡ some f) × (f.prepared.unique_id ≡ frame.unique_id))
      × (to_central r.2 ≡ to_central w)
      × (r.1.forwarder.upstream_buffer ≡ s.forwarder.upstream_buffer)

  on_charger_frame_lem :
      (raw : String) (frame : OcppFrame) (s : Session) (w : W)
      → parse lib.from_str at.now raw ≡ ok frame
      → let r = on_charger_frame wire lib id charging at raw frame s w in
        ((answers frame s.local ≡ true) × Claimed frame s w r)
        ⊎ ((answers frame s.local ≡ false) × ForwardedUp raw frame s w r)
  unfolding on_charger_frame then_send
  on_charger_frame_lem raw frame s w e =
      let up' : ForwardedUp raw frame s w (forward_up wire lib id charging at raw frame s w) =
        subst (λ t. ForwardedUp t frame s w (forward_up wire lib id charging at raw frame s w))
          (parse-raw lib.from_str at.now raw frame e) (forward_up_lem raw frame s w e) in
      elim (Bool-cases (is_call frame.message_type)) [
        | inl c ↦ rw (c, on_charger_frame) (inr (refl, up'))
        | inr c ↦ elim (Option-cases (take_response frame.unique_id s.local).0) [
          | inl unclaimed ↦
              rw (c, unclaimed, on_charger_frame) (inr (unanswered frame s.local unclaimed, up'))
          | inr (f, claimed) ↦
              let (there, same) = ((take_response_lem frame.unique_id s.local).0 f).0 claimed in
              rw (c, claimed, on_charger_frame)
                (inl (
                  answered f frame s.local there same,
                  (
                    refl,
                    (f, there, same),
                    then_send-central
                          (record s { local = (take_response frame.unique_id s.local).1 }) _
                        ∙ complete-central f frame w,
                    refl,
                  ),
                ))
        ]
      ]

  pub on_charger_text_lem :
      (raw : String) (s : Session) (w : W)
      → let r = on_charger_text wire lib id charging at raw s w in
        ((e : ProxyError) × (parse lib.from_str at.now raw ≡ err e)
          × (r.1 ≡ s)
          × ((to_central r.2 ≡ to_central w ++ raw ∷ [])
              ⊎ ((r.0 ≡ upstream_lost) × (to_central r.2 ≡ to_central w))))
        ⊎ ((frame : OcppFrame) × (parse lib.from_str at.now raw ≡ ok frame)
            × (((answers frame s.local ≡ true) × Claimed frame s w r)
                ⊎ ((answers frame s.local ≡ false) × ForwardedUp raw frame s w r)))
  unfolding on_charger_text on_charger_frame upstream_sink
  on_charger_text_lem raw s w = elim (Result-cases (parse lib.from_str at.now raw)) [
    | inl (frame, e) ↦
        rw (e, on_charger_text) (inr (frame, refl, on_charger_frame_lem raw frame s w e))
    | inr (e, bad) ↦ elim (Result-cases (wire.send_central raw w).0) [
      | inl (u, sent) ↦
          rw (bad, sent, on_charger_text) (inl (e, refl, refl, inl (wire.central-ok raw w sent)))
      | inr (l, lost) ↦
          rw (bad, lost, on_charger_text)
            (inl (e, refl, refl, inr (refl, wire.central-err raw w l lost)))
    ]
  ]
