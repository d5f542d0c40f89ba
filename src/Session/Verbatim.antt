-- ===== src/Session/Verbatim.antt =====
-- What becomes of a text that the Central System sends (src/session.rs).
use ocpp_proxy.Base.{
  String, [], ◌∷◌, ◌++◌, ◌≡◌, refl, ◌∙◌, ◌⊎◌, inl, inr, ok, err, Result-cases, Bool-cases,
}
use ocpp_proxy.Errors.{ProxyError}
use ocpp_proxy.Models.Frames.{parse-raw}
use ocpp_proxy.Models.{OcppFrame, parse}
use ocpp_proxy.Config.Charging.{ChargingConfig}
use ocpp_proxy.Forwarder.{MessageForwarder, forward_downstream, forward_message}
use ocpp_proxy.Session.Wire.{Wire, Libraries, Moment, charger_sink}
use ocpp_proxy.Session.Loop.{Session, running, charger_gone, on_central_text}

module _ {W : Type 0} (wire : Wire W) (lib : Libraries) (id : String) (charging : ChargingConfig)
    (at : Moment) where
  open wire use {to_charger, to_central}

  forward_downstream-cases :
      (raw : String) (frame : OcppFrame) (f : MessageForwarder) (w : W)
      → frame.raw ≡ raw
      → let r = forward_downstream (charger_sink wire) wire.try_send frame at.now f w in
        (to_central r.2 ≡ to_central w)
        × (((r.0 ≡ ok tt) × (to_charger r.2 ≡ to_charger w ++ raw ∷ []))
            ⊎ ((e : ProxyError) × (r.0 ≡ err e) × (to_charger r.2 ≡ to_charger w)))
  unfolding forward_message charger_sink
  forward_downstream-cases raw frame f w same = elim (Bool-cases (wire.send_charger raw w).0) [
    | inl sent ↦
        rw (same, sent)
          (
            wire.publish-central _ _ ∙ wire.charger-central raw w,
            inl (refl, wire.publish-charger _ _ ∙ wire.charger-ok raw w sent),
          )
    | inr lost ↦
        rw (same, lost) (wire.charger-central raw w, inr (_, refl, wire.charger-err raw w lost))
  ]

  pub on_central_text_lem :
      (raw : String) (s : Session) (w : W)
      → let r = on_central_text wire lib id charging at raw s w in
        (to_central r.2 ≡ to_central w)
        × (((r.0 ≡ running) × (to_charger r.2 ≡ to_charger w ++ raw ∷ []))
            ⊎ ((r.0 ≡ charger_gone) × (to_charger r.2 ≡ to_charger w)))
  unfolding on_central_text charger_sink
  on_central_text_lem raw s w = elim (Result-cases (parse lib.from_str at.now raw)) [
    | inl (frame, e) ↦
        let (same, sending) =
          forward_downstream-cases raw frame s.forwarder w
            (parse-raw lib.from_str at.now raw frame e) in
        elim sending [
          | inl (sent, handed) ↦ rw (e, sent, on_central_text) (same, inl (refl, handed))
          | inr (l, lost, kept) ↦ rw (e, lost, on_central_text) (same, inr (refl, kept))
        ]
    | inr (e, bad) ↦ elim (Bool-cases (wire.send_charger raw w).0) [
      | inl sent ↦
          rw (bad, sent, on_central_text)
            (wire.charger-central raw w, inl (refl, wire.charger-ok raw w sent))
      | inr lost ↦
          rw (bad, lost, on_central_text)
            (wire.charger-central raw w, inr (refl, wire.charger-err raw w lost))
    ]
  ]
