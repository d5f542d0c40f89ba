-- ===== src/Session/Accounts.antt =====
-- What one step of a session owes the Central System, and what it does about it (src/session.rs).
use ocpp_proxy.Base.{
  String, Option, none, some, List, [], ◌∷◌, ◌++◌, append-nil, ◌≡◌, refl, ap, sym, ◌∙◌,
  push_bounded, push_bounded_first, inl, inr, ok, err, if◌then◌else◌, Result-cases, Bool-cases,
}
use ocpp_proxy.Errors.{ProxyError}
use ocpp_proxy.Models.{OcppFrame, parse}
use ocpp_proxy.Models.Frames.{parse-raw}
use ocpp_proxy.Config.Charging.{ChargingConfig}
use ocpp_proxy.Command.{CommandRequest, InFlight}
use ocpp_proxy.Command.Queue.{push, expire, is_idle}
use ocpp_proxy.Forwarder.{
  MessageForwarder, forward_downstream, forward_message, evict_expired_messages,
  cleanup_expired_calls,
}
use ocpp_proxy.Session.Wire.{Wire, Libraries, Moment, charger_sink}
use ocpp_proxy.Session.LocalCalls.{emit}
use ocpp_proxy.Session.Loop.{
  Session, LoopOutcome, upstream_lost, Incoming, text, binary, close, other, error, ended, ping,
  Event, from_charger, from_central, command, command_tick, housekeeping, cancelled, then_send,
  on_charger, on_charger_text, on_central, on_central_text, on_command, report_displaced,
  report_expired, report_unanswered, on_command_tick, on_housekeeping, step,
}
use ocpp_proxy.Session.Transparency.{answers, then_send-central, ForwardedUp, on_charger_text_lem}
use ocpp_proxy.Session.Verbatim.{on_central_text_lem}

module _ (lib : Libraries) where
  -- The texts that an event owes the Central System: what the charger sends, less its answers to the
  -- call of the proxy that is in flight. An answer to one that has expired is owed like any other text.
  abbrev pub owed_text : Moment → String → Session → List String
  owed_text at raw s = elim (parse lib.from_str at.now raw) [
    | ok frame ↦ (if answers frame s.local then [] else raw ∷ [])
    | err e ↦ raw ∷ []
  ]

  abbrev owed_incoming : Moment → Incoming → Session → List String
  owed_incoming at (text raw) s = owed_text at raw s
  owed_incoming at _ s = []

  abbrev pub owed : Moment → Event → Session → List String
  owed at (from_charger m) s = owed_incoming at m s
  owed at _ s = []

module _ {W : Type 0} (wire : Wire W) (lib : Libraries) (id : String)
    (charging : ChargingConfig) where
  open wire use {to_central}

  -- What was owed was handed over and nothing is buffered; or the upstream is lost, the Central System was
  -- handed nothing, and what was owed is one text, which is buffered if it is a frame and is lost if not.
  pub data Accounts (at : Moment) (w : W) (owing : List String) (r : LoopOutcome × Session × W)
      : Type 0 where
    handed :
        to_central r.2 ≡ to_central w ++ owing
        → r.1.forwarder.upstream_buffer ≡ []
        → Accounts at w owing r
    buffered :
        (frame : OcppFrame)
        → r.0 ≡ upstream_lost
        → owing ≡ frame.raw ∷ []
        → to_central r.2 ≡ to_central w
        → r.1.forwarder.upstream_buffer ≡ frame ∷ []
        → Accounts at w owing r
    lost :
        (raw : String) (e : ProxyError)
        → r.0 ≡ upstream_lost
        → owing ≡ raw ∷ []
        → parse lib.from_str at.now raw ≡ err e
        → to_central r.2 ≡ to_central w
        → r.1.forwarder.upstream_buffer ≡ []
        → Accounts at w owing r

  module _ (at : Moment) where
    -- a step that owes nothing, hands over nothing and buffers nothing
    quiet :
        (w : W) (r : LoopOutcome × Session × W)
        → to_central r.2 ≡ to_central w
        → r.1.forwarder.upstream_buffer ≡ []
        → Accounts at w [] r
    quiet w r same empty = handed (same ∙ sym (append-nil (to_central w))) empty

    forwarded-Accounts :
        (raw : String) (frame : OcppFrame) (s : Session) (w : W) (r : LoopOutcome × Session × W)
        → frame.raw ≡ raw
        → s.forwarder.upstream_buffer ≡ []
        → ForwardedUp wire lib id charging at raw frame s w r
        → Accounts at w (raw ∷ []) r
    forwarded-Accounts raw frame s w r same empty (inl (sent, kept)) = handed sent (kept ∙ empty)
    forwarded-Accounts raw frame s w r same empty (inr (gone, none_sent, queued)) =
        buffered frame gone (ap (λ t. t ∷ []) (sym same)) none_sent (
          queued
          ∙ ap (push_bounded s.forwarder.max_buffer_size frame) empty
          ∙ push_bounded_first s.forwarder.max_buffer_size frame)

    charger_text-Accounts :
        (raw : String) (s : Session) (w : W)
        → s.forwarder.upstream_buffer ≡ []
        → Accounts at w (owed_text lib at raw s) (on_charger_text wire lib id charging at raw s w)
    charger_text-Accounts raw s w empty =
        elim (on_charger_text_lem wire lib id charging at raw s w) [
          | inl (e, bad, same, sending) ↦
              let kept = ap (λ t. t.forwarder.upstream_buffer) same ∙ empty in
              elim sending [
                | inl sent ↦ rw (bad, owed_text) (handed sent kept)
                | inr (gone, none_sent) ↦
                    rw (bad, owed_text) (lost raw e gone refl bad none_sent kept)
              ]
          | inr (frame, parsed, how) ↦ elim how [
            | inl (ours, (no_call, there, none_sent, kept)) ↦
                rw (parsed, owed_text, ours) (quiet w _ none_sent (kept ∙ empty))
            | inr (other_frame, sending) ↦
                rw (parsed, owed_text, other_frame)
                  (forwarded-Accounts raw frame s w _
                    (parse-raw lib.from_str at.now raw frame parsed) empty sending)
          ]
        ]

    charger-Accounts :
        (m : Incoming) (s : Session) (w : W)
        → s.forwarder.upstream_buffer ≡ []
        → Accounts at w (owed_incoming lib at m s) (on_charger wire lib id charging at m s w)
    unfolding on_charger
    charger-Accounts (text raw) s w empty = charger_text-Accounts raw s w empty
    charger-Accounts binary s w empty = quiet w _ refl empty
    charger-Accounts close s w empty = quiet w _ refl empty
    charger-Accounts other s w empty = quiet w _ refl empty
    charger-Accounts error s w empty = quiet w _ refl empty
    charger-Accounts ended s w empty = quiet w _ refl empty
    charger-Accounts ping s w empty = quiet w _ refl empty

    -- forwarding moves no message in or out of the buffers
    forward_downstream-buffer :
        (frame : OcppFrame) (f : MessageForwarder) (w : W)
        → (forward_downstream (charger_sink wire) wire.try_send frame at.now f w).1.upstream_buffer
          ≡ f.upstream_buffer
    unfolding forward_message charger_sink ocpp_proxy.Forwarder.resolve_action
    forward_downstream-buffer frame f w = elim (Bool-cases (wire.send_charger frame.raw w).0) [
      | inl sent ↦ rw sent refl
      | inr closed ↦ rw closed refl
    ]

    central_text-buffer :
        (raw : String) (s : Session) (w : W)
        → (on_central_text wire lib id charging at raw s w).1.forwarder.upstream_buffer
          ≡ s.forwarder.upstream_buffer
    unfolding on_central_text
    central_text-buffer raw s w = elim (Result-cases (parse lib.from_str at.now raw)) [
      | inl (frame, e) ↦
          let r = forward_downstream (charger_sink wire) wire.try_send frame at.now s.forwarder w in
          elim (Result-cases r.0) [
            | inl (u, sent) ↦
                rw (e, sent, on_central_text) (forward_downstream-buffer frame s.forwarder w)
            | inr (l, closed) ↦
                rw (e, closed, on_central_text) (forward_downstream-buffer frame s.forwarder w)
          ]
      | inr (e, bad) ↦ rw (bad, on_central_text) refl
    ]

    central-Accounts :
        (m : Incoming) (s : Session) (w : W)
        → s.forwarder.upstream_buffer ≡ []
        → Accounts at w [] (on_central wire lib id charging at m s w)
    unfolding on_central
    central-Accounts (text raw) s w empty =
        quiet w _ (on_central_text_lem wire lib id charging at raw s w).0
          (central_text-buffer raw s w ∙ empty)
    central-Accounts ping s w empty = quiet w _ (wire.pong-central w) empty
    central-Accounts close s w empty = quiet w _ refl empty
    central-Accounts ended s w empty = quiet w _ refl empty
    central-Accounts binary s w empty = quiet w _ refl empty
    central-Accounts other s w empty = quiet w _ refl empty
    central-Accounts error s w empty = quiet w _ refl empty

    report_displaced-central :
        (rs : List CommandRequest) (w : W)
        → to_central (report_displaced wire lib id charging at rs w) ≡ to_central w
    unfolding report_displaced emit
    report_displaced-central [] w = refl
    report_displaced-central (r ∷ rs) w = report_displaced-central rs _ ∙ wire.publish-central _ w

    report_expired-central :
        (rs : List CommandRequest) (w : W)
        → to_central (report_expired wire lib id charging at rs w) ≡ to_central w
    unfolding report_expired emit
    report_expired-central [] w = refl
    report_expired-central (r ∷ rs) w = report_expired-central rs _ ∙ wire.publish-central _ w

    report_unanswered-central :
        (f : Option InFlight) (w : W)
        → to_central (report_unanswered wire lib id charging at f w) ≡ to_central w
    unfolding report_unanswered emit
    report_unanswered-central none w = refl
    report_unanswered-central (some f) w = wire.publish-central _ w

    sent-Accounts :
        (s : Session) (w w' : W)
        → to_central w' ≡ to_central w
        → s.forwarder.upstream_buffer ≡ []
        → Accounts at w [] (then_send wire lib id charging at s w')
    unfolding then_send
    sent-Accounts s w w' same empty =
        quiet w _ (then_send-central wire lib id charging at s w' ∙ same) empty

  -- Every step accounts for what it owes, when it starts with nothing buffered.
  pub step-Accounts :
      (at : Moment) (e : Event) (s : Session) (w : W)
      → s.forwarder.upstream_buffer ≡ []
      → Accounts at w (owed lib at e s) (step wire lib id charging at e s w)
  unfolding step on_command on_command_tick on_housekeeping evict_expired_messages
      cleanup_expired_calls
  step-Accounts at (from_charger m) s w empty = charger-Accounts at m s w empty
  step-Accounts at (from_central m) s w empty = central-Accounts at m s w empty
  step-Accounts at (command none) s w empty = elim (Bool-cases s.commands_open) [
    | inl e ↦ rw e (quiet at w _ refl empty)
    | inr e ↦ rw e (quiet at w _ refl empty)
  ]
  step-Accounts at (command (some r)) s w empty = elim (Bool-cases s.commands_open) [
    | inl e ↦ rw e (sent-Accounts at _ w _ (report_displaced-central at (push r s.local).0 w) empty)
    | inr e ↦ rw e (quiet at w _ refl empty)
  ]
  step-Accounts at command_tick s w empty = elim (Bool-cases (is_idle s.local)) [
    | inl e ↦ rw e (quiet at w _ refl empty)
    | inr e ↦
        let (expired, unanswered, local) = expire lib.from_std at.now at.instant s.local in
        rw e (
          sent-Accounts at _ w _
            (report_unanswered-central at unanswered _ ∙ report_expired-central at expired w) empty)
  ]
  step-Accounts at housekeeping s w empty = quiet at w _ refl (rw empty refl)
  step-Accounts at cancelled s w empty = quiet at w _ refl empty
