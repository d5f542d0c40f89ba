-- ===== src/Session/Downlink.antt =====
-- What the charger is handed by one step: the texts of the Central System and the proxy's own calls
-- (src/session.rs).
pub mod Steps
pub mod Weaving
pub mod Quiet
pub mod Sessions
use ocpp_proxy.Base.{
  String, Option, Bool, true, false, none, some, List, [], ◌∷◌, ◌++◌, append-nil, ◌≡◌, refl, ap,
  sym, ◌∙◌, ◌⊎◌, inl, inr, arith, ok, err, Result, Result-cases, Bool-cases, Option-cases,
}
use ocpp_proxy.Errors.{ProxyError}
use ocpp_proxy.Models.{OcppFrame, parse, charger_to_central}
use ocpp_proxy.State.{record_forwarded}
use ocpp_proxy.Config.Charging.{ChargingConfig}
use ocpp_proxy.Command.{CommandRequest, InFlight, PreparedCall}
use ocpp_proxy.Command.Queue.{LocalCallQueue, push, expire, take_response, is_idle}
use ocpp_proxy.Forwarder.{MessageForwarder, forward_upstream, forward_message}
use ocpp_proxy.Session.Wire.{Wire, Libraries, Moment, upstream_sink}
use ocpp_proxy.Session.LocalCalls.{emit, prepared_as, complete_local_call}
use ocpp_proxy.Session.Loop.{
  Session, LoopOutcome, running, charger_gone, Incoming, text, binary, close, other, error, ended,
  ping, Event, from_charger, from_central, command, command_tick, housekeeping, cancelled, is_call,
  then_send, forward_up, on_charger_frame, on_charger_text, on_charger, on_central, on_command,
  on_command_tick, on_housekeeping, report_displaced, report_expired, report_unanswered, step,
}
use ocpp_proxy.Session.Sending.{SentAtMostOne, send_local_calls_lem}
use ocpp_proxy.Session.Verbatim.{on_central_text_lem}

module _ {W : Type 0} (wire : Wire W) (lib : Libraries) (id : String)
    (charging : ChargingConfig) where
  open wire use {to_charger}

  -- The text is a call that the proxy prepared for a request.
  abbrev pub IsOwn : String → Type 0
  IsOwn raw =
      (at : Moment) × (request : CommandRequest) × (q : LocalCallQueue) × (c : PreparedCall)
      × (prepared_as wire lib id charging at request q ≡ ok c)
      × (raw ≡ c.raw)

  -- The second list is the first one, in its order, with calls of the proxy put in.
  pub data Woven : List String → List String → Type 0 where
    none_handed : Woven [] []
    passed : (t : String) (ts hs : List String) → Woven ts hs → Woven (t ∷ ts) (t ∷ hs)
    own : (raw : String) (ts hs : List String) → IsOwn raw → Woven ts hs → Woven ts (raw ∷ hs)

  pub Woven-append :
      (ts hs ts' hs' : List String) → Woven ts hs → Woven ts' hs' → Woven (ts ++ ts') (hs ++ hs')
  Woven-append _ _ ts' hs' none_handed k = k
  Woven-append _ _ ts' hs' (passed t ts hs h) k = passed t _ _ (Woven-append ts hs ts' hs' h k)
  Woven-append _ _ ts' hs' (own raw ts hs mine h) k =
      own raw _ _ mine (Woven-append ts hs ts' hs' h k)

  -- All the texts were handed over with calls of the proxy put in; or the charger is gone, and all but the last of
  -- them were.
  abbrev pub Handed : Type 0 → List String → W → W → Type 0
  Handed Gone ts w w' =
      ((hs : List String) × Woven ts hs × (to_charger w' ≡ to_charger w ++ hs))
      ⊎ (Gone
          × ((t : String) × (before : List String) × (hs : List String) × (ts ≡ before ++ t ∷ [])
              × Woven before hs
              × (to_charger w' ≡ to_charger w ++ hs)))

  pub untouched : (Gone : Type 0) (w w' : W) → to_charger w' ≡ to_charger w → Handed Gone [] w w'
  untouched Gone w w' same = inl ([], none_handed, same ∙ sym (append-nil (to_charger w)))

  module _ (at : Moment) where
    abbrev pub IsGone : LoopOutcome × Session × W → Type 0
    IsGone r = r.0 ≡ charger_gone

    pub then_send-Handed :
        (s : Session) (w w' : W)
        → to_charger w' ≡ to_charger w
        → let r = then_send wire lib id charging at s w' in Handed (IsGone r) [] w r.2
    unfolding then_send
    then_send-Handed s w w' same =
        let r = then_send wire lib id charging at s w' in
        elim (send_local_calls_lem wire lib id charging at s.forwarder s.local w').1 [
          | inl kept ↦ untouched (IsGone r) w r.2 (kept ∙ same)
          | inr (clear, free, inl kept) ↦ untouched (IsGone r) w r.2 (kept ∙ same)
          | inr (clear, free, inr (f, before, there, made, sent)) ↦ inl (
            f.prepared.raw ∷ [],
            own f.prepared.raw [] [] (at, f.request, before, f.prepared, made, refl) none_handed,
            sent ∙ ap (λ g. g ++ f.prepared.raw ∷ []) same,
          )
        ]

    forward_upstream-charger :
        (frame : OcppFrame) (f : MessageForwarder) (w : W)
        → to_charger (forward_upstream (upstream_sink wire) wire.try_send frame at.now f w).2
          ≡ to_charger w
    unfolding forward_message upstream_sink
    forward_upstream-charger frame f w = elim (Result-cases (wire.send_central frame.raw w).0) [
      | inl (u, sent) ↦ rw sent (wire.publish-charger _ _ ∙ wire.central-charger frame.raw w)
      | inr (e, lost) ↦ rw lost (wire.central-charger frame.raw w)
    ]

    pub forward_up-Handed :
        (raw : String) (frame : OcppFrame) (s : Session) (w : W)
        → let r = forward_up wire lib id charging at raw frame s w in Handed (IsGone r) [] w r.2
    unfolding forward_up
    forward_up-Handed raw frame s w =
        let (sent, f, w') =
          forward_upstream (upstream_sink wire) wire.try_send frame at.now s.forwarder w in
        let same = forward_upstream-charger frame s.forwarder w in
        elim (Result-cases sent) [
          | inl (u, fine) ↦ elim (Bool-cases (is_idle s.local)) [
            | inl idle ↦ rw (fine, idle, forward_up) (untouched _ w w' same)
            | inr busy ↦
                rw (fine, busy, forward_up)
                  (then_send-Handed
                    (record s {
                      forwarder = f;
                      manager = record_forwarded charger_to_central s.manager;
                    })
                    w w' same)
          ]
          | inr (e, lost) ↦ elim (Result-cases (parse lib.from_str at.now raw)) [
            | inl (again, parsed) ↦ rw (lost, parsed, forward_up) (untouched _ w w' same)
            | inr (e', bad) ↦ rw (lost, bad, forward_up) (untouched _ w w' same)
          ]
        ]
