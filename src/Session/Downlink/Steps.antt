-- ===== src/Session/Downlink/Steps.antt =====
-- What the charger is handed by each branch of the forwarding loop (src/session.rs).
use ocpp_proxy.Base.{
  String, Option, none, some, List, [], ◌∷◌, append-nil, ◌≡◌, refl, sym, ◌∙◌, inl, inr,
  Result-cases, Bool-cases, Option-cases,
}
use ocpp_proxy.Models.{OcppFrame, parse}
use ocpp_proxy.Config.Charging.{ChargingConfig}
use ocpp_proxy.Command.{CommandRequest, InFlight}
use ocpp_proxy.Command.Queue.{push, expire, take_response, is_idle}
use ocpp_proxy.Session.Wire.{Wire, Libraries, Moment, upstream_sink}
use ocpp_proxy.Session.LocalCalls.{emit, complete_local_call}
use ocpp_proxy.Session.Loop.{
  Session, LoopOutcome, charger_gone, Incoming, text, binary, close, other, error, ended, ping,
  Event, from_charger, from_central, command, command_tick, housekeeping, cancelled, is_call,
  then_send, on_charger_frame, on_charger_text, on_charger, on_central, on_command, on_command_tick,
  on_housekeeping, report_displaced, report_expired, report_unanswered, step,
}
use ocpp_proxy.Session.Verbatim.{on_central_text_lem}
use ocpp_proxy.Session.Downlink.{
  none_handed, passed, Handed, untouched, then_send-Handed, forward_up-Handed,
}

-- the texts of the Central System in an event
abbrev pub sent_by : Event → List String
sent_by (from_central (text raw)) = raw ∷ []
sent_by _ = []

module _ {W : Type 0} (wire : Wire W) (lib : Libraries) (id : String)
    (charging : ChargingConfig) where
  open wire use {to_charger}

  -- what a step hands over of these texts
  abbrev pub StepHanded : List String → W → LoopOutcome × Session × W → Type 0
  StepHanded ts w r = Handed wire lib id charging (r.0 ≡ charger_gone) ts w r.2

  module _ (at : Moment) where
    abbrev Quiet : W → LoopOutcome × Session × W → Type 0
    Quiet w r = StepHanded [] w r

    sent :
        (s : Session) (w w' : W)
        → to_charger w' ≡ to_charger w
        → Quiet w (then_send wire lib id charging at s w')
    sent s w w' same = then_send-Handed wire lib id charging at s w w' same

    complete-charger :
        (f : InFlight) (frame : OcppFrame) (w : W)
        → to_charger (complete_local_call wire lib id at f frame w) ≡ to_charger w
    unfolding complete_local_call emit
    complete-charger f frame w = wire.publish-charger _ w

    frame-Quiet :
        (raw : String) (frame : OcppFrame) (s : Session) (w : W)
        → Quiet w (on_charger_frame wire lib id charging at raw frame s w)
    unfolding on_charger_frame
    frame-Quiet raw frame s w = elim (Bool-cases (is_call frame.message_type)) [
      | inl c ↦ rw (c, on_charger_frame) (forward_up-Handed wire lib id charging at raw frame s w)
      | inr c ↦ elim (Option-cases (take_response frame.unique_id s.local).0) [
        | inl unclaimed ↦
            rw (c, unclaimed, on_charger_frame)
              (forward_up-Handed wire lib id charging at raw frame s w)
        | inr (f, claimed) ↦
            rw (c, claimed, on_charger_frame)
              (sent (record s { local = (take_response frame.unique_id s.local).1 }) w
                (complete_local_call wire lib id at f frame w) (complete-charger f frame w))
      ]
    ]

    charger-Quiet :
        (m : Incoming) (s : Session) (w : W) → Quiet w (on_charger wire lib id charging at m s w)
    unfolding on_charger on_charger_text upstream_sink
    charger-Quiet (text raw) s w = elim (Result-cases (parse lib.from_str at.now raw)) [
      | inl (frame, e) ↦ rw (e, on_charger_text) (frame-Quiet raw frame s w)
      | inr (e, bad) ↦
          rw (bad, on_charger_text)
            (untouched wire lib id charging _ w _ (wire.central-charger raw w))
    ]
    charger-Quiet binary s w = untouched wire lib id charging _ w _ refl
    charger-Quiet close s w = untouched wire lib id charging _ w _ refl
    charger-Quiet other s w = untouched wire lib id charging _ w _ refl
    charger-Quiet error s w = untouched wire lib id charging _ w _ refl
    charger-Quiet ended s w = untouched wire lib id charging _ w _ refl
    charger-Quiet ping s w = untouched wire lib id charging _ w _ refl

    displaced-charger :
        (rs : List CommandRequest) (w : W)
        → to_charger (report_displaced wire lib id charging at rs w) ≡ to_charger w
    unfolding report_displaced emit
    displaced-charger [] w = refl
    displaced-charger (r ∷ rs) w = displaced-charger rs _ ∙ wire.publish-charger _ w

    expired-charger :
        (rs : List CommandRequest) (w : W)
        → to_charger (report_expired wire lib id charging at rs w) ≡ to_charger w
    unfolding report_expired emit
    expired-charger [] w = refl
    expired-charger (r ∷ rs) w = expired-charger rs _ ∙ wire.publish-charger _ w

    unanswered-charger :
        (f : Option InFlight) (w : W)
        → to_charger (report_unanswered wire lib id charging at f w) ≡ to_charger w
    unfolding report_unanswered emit
    unanswered-charger none w = refl
    unanswered-charger (some f) w = wire.publish-charger _ w

    central_text-Handed :
        (raw : String) (s : Session) (w : W)
        → StepHanded (raw ∷ []) w (on_central wire lib id charging at (text raw) s w)
    unfolding on_central
    central_text-Handed raw s w = elim (on_central_text_lem wire lib id charging at raw s w).1 [
      | inl (on, handed) ↦ inl (raw ∷ [], passed raw [] [] none_handed, handed)
      | inr (gone, kept) ↦
          inr (gone, (raw, [], [], refl, none_handed, kept ∙ sym (append-nil (to_charger w))))
    ]

  pub step-Handed :
      (at : Moment) (e : Event) (s : Session) (w : W)
      → StepHanded (sent_by e) w (step wire lib id charging at e s w)
  unfolding step on_central on_command on_command_tick on_housekeeping
  step-Handed at (from_charger m) s w = charger-Quiet at m s w
  step-Handed at (from_central (text raw)) s w = central_text-Handed at raw s w
  step-Handed at (from_central binary) s w = untouched wire lib id charging _ w _ refl
  step-Handed at (from_central close) s w = untouched wire lib id charging _ w _ refl
  step-Handed at (from_central other) s w = untouched wire lib id charging _ w _ refl
  step-Handed at (from_central error) s w = untouched wire lib id charging _ w _ refl
  step-Handed at (from_central ended) s w = untouched wire lib id charging _ w _ refl
  step-Handed at (from_central ping) s w =
      untouched wire lib id charging _ w _ (wire.pong-charger w)
  step-Handed at (command none) s w = elim (Bool-cases s.commands_open) [
    | inl e ↦ rw e (untouched wire lib id charging _ w _ refl)
    | inr e ↦ rw e (untouched wire lib id charging _ w _ refl)
  ]
  step-Handed at (command (some r)) s w = elim (Bool-cases s.commands_open) [
    | inl e ↦ rw e (
        sent at (record s { local = (push r s.local).1 }) w _
          (displaced-charger at (push r s.local).0 w))
    | inr e ↦ rw e (untouched wire lib id charging _ w _ refl)
  ]
  step-Handed at command_tick s w = elim (Bool-cases (is_idle s.local)) [
    | inl e ↦ rw e (untouched wire lib id charging _ w _ refl)
    | inr e ↦
        let (expired, unanswered, local) = expire lib.from_std at.now at.instant s.local in
        rw e (
          sent at (record s { local = local }) w _
            (unanswered-charger at unanswered _ ∙ expired-charger at expired w))
  ]
  step-Handed at housekeeping s w = untouched wire lib id charging _ w _ refl
  step-Handed at cancelled s w = untouched wire lib id charging _ w _ refl
