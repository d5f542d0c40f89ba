-- ===== src/Session/Wire.antt =====
-- The transports of a session: the channel to the charger's writer task, the socket to the Central
-- System, and the channel to the MQTT publisher. They are an interface: what the session relies on
-- is that a send which succeeds hands over the text, and that a send to one peer leaves the others.
use ocpp_proxy.Base.{
  ℕ, String, Bool, true, false, List, [], ◌∷◌, ◌++◌, Option, ◌≡◌, Result, ok, err,
}
use ocpp_proxy.Base.Text.{format}
use ocpp_proxy.Base.Float.{Arithmetic}
use ocpp_proxy.Errors
use ocpp_proxy.Errors.{ProxyError}
use ocpp_proxy.Json.{Json}
use ocpp_proxy.Events.{MqttEvent}

pub record Wire (W : Type 0) : Type 0 where
  pub send_charger : String → W → Bool × W
  pub send_central : String → W → Result String (Unit {0}) × W
  pub send_pong : W → Bool × W
  -- the close frame, with its code
  pub close_charger : ℕ → W → W
  pub try_send : MqttEvent → W → W
  -- what each peer has been handed so far
  pub to_charger : W → List String
  pub to_central : W → List String
  pub charger-ok :
      (raw : String) (w : W)
      → (send_charger raw w).0 ≡ true
      → to_charger (send_charger raw w).1 ≡ to_charger w ++ raw ∷ []
  pub charger-err :
      (raw : String) (w : W)
      → (send_charger raw w).0 ≡ false
      → to_charger (send_charger raw w).1 ≡ to_charger w
  pub charger-central : (raw : String) (w : W) → to_central (send_charger raw w).1 ≡ to_central w
  pub central-ok :
      (raw : String) (w : W)
      → (send_central raw w).0 ≡ ok tt
      → to_central (send_central raw w).1 ≡ to_central w ++ raw ∷ []
  pub central-err :
      (raw : String) (w : W) (e : String)
      → (send_central raw w).0 ≡ err e
      → to_central (send_central raw w).1 ≡ to_central w
  pub central-charger : (raw : String) (w : W) → to_charger (send_central raw w).1 ≡ to_charger w
  pub pong-charger : (w : W) → to_charger (send_pong w).1 ≡ to_charger w
  pub close-charger : (code : ℕ) (w : W) → to_charger (close_charger code w) ≡ to_charger w
  pub pong-central : (w : W) → to_central (send_pong w).1 ≡ to_central w
  pub close-central : (code : ℕ) (w : W) → to_central (close_charger code w) ≡ to_central w
  pub publish-charger : (e : MqttEvent) (w : W) → to_charger (try_send e w) ≡ to_charger w
  pub publish-central : (e : MqttEvent) (w : W) → to_central (try_send e w) ≡ to_central w
  -- what the publisher's channel has been offered so far
  pub offered : W → List MqttEvent
  pub publish-offered : (e : MqttEvent) (w : W) → offered (try_send e w) ≡ offered w ++ e ∷ []
  pub charger-offered : (raw : String) (w : W) → offered (send_charger raw w).1 ≡ offered w
  pub central-offered : (raw : String) (w : W) → offered (send_central raw w).1 ≡ offered w
  pub pong-offered : (w : W) → offered (send_pong w).1 ≡ offered w
  pub close-offered : (code : ℕ) (w : W) → offered (close_charger code w) ≡ offered w

-- The libraries that a session calls: the JSON parser and printer, the printing of times and quoted
-- texts, the arithmetic of floats, and `chrono::Duration::from_std`.
pub record Libraries : Type 0 where
  pub from_str : String → Result String Json
  pub to_string : Json → Result String String
  pub rfc3339 : ℕ → String
  pub debug : String → String
  pub arithmetic : Arithmetic
  pub from_std : ℕ → Option ℕ

-- The clocks at one step: the UTC time, its milliseconds, the monotonic instant, and the time as the
-- text in a result. They do not move within a step.
pub record Moment : Type 0 where
  pub now : ℕ
  pub millis : ℕ
  pub instant : ℕ
  pub stamp : String

module _ {W : Type 0} (wire : Wire W) where
  -- `ChargerSink::send_raw`
  unfoldable pub charger_sink : String → W → Result ProxyError (Unit {0}) × W
  charger_sink raw w =
      let (sent, w') = wire.send_charger raw w in
      (elim sent [ true ↦ ok tt | false ↦ err (Errors.forwarding "Charger connection closed") ], w')

  -- `UpstreamSink::send_raw`
  unfoldable pub upstream_sink : String → W → Result ProxyError (Unit {0}) × W
  upstream_sink raw w =
      let (sent, w') = wire.send_central raw w in
      (
        elim sent [
          | ok u ↦ ok tt
          | err e ↦
              err (
                Errors.connection_upstream (format ("Failed to send to Central System: " ∷ e ∷ [])))
        ],
        w',
      )
