-- ===== src/Config/Missing.antt =====
-- How `load_from_path` reports the parameters that are absent (src/config.rs).
use text.Mathlib.TextLemmas.{
  append_assoc as text-append_assoc, append-nil as text-append-nil, nil-append,
}
use Prim.Native.String as Text
use ocpp_proxy.Base.{
  String, false, Option, none, some, List, [], ◌∷◌, ◌++◌, ◌≡◌, refl, ap, ◌∙◌, ◌⊎◌, inl, inr, Result,
  ok, err, is_empty, is_some, not, option_bind,
}
use ocpp_proxy.Base.Text.{format, join}
use ocpp_proxy.Base.Float.{F64}
use ocpp_proxy.Errors.{ProxyError}
use ocpp_proxy.Errors
use ocpp_proxy.Config.Charging.{report}
use ocpp_proxy.Config.{
  ProxyConfig, RawProxyConfig, RawMqttConfig, Files, missing_required, check_missing, missing_mqtt,
  bullets, load_from_path,
}

-- `Absent raw name`: the required parameter `name` is not set.
pub data AbsentMqtt (o : Option RawMqttConfig) : String → Type 0 where
  no_host : (option_bind o λ m. m.host) ≡ none → AbsentMqtt o "mqtt.host"
  no_port : (option_bind o λ m. m.port) ≡ none → AbsentMqtt o "mqtt.port"
  no_username : (option_bind o λ m. m.username) ≡ none → AbsentMqtt o "mqtt.username"
  no_password : (option_bind o λ m. m.password) ≡ none → AbsentMqtt o "mqtt.password"

pub data Absent (raw : RawProxyConfig) : String → Type 0 where
  no_url : raw.central_system_url ≡ none → Absent raw "central_system_url"
  no_listen_port : raw.listen_port ≡ none → Absent raw "listen_port"
  no_mqtt : {name : String} → AbsentMqtt raw.mqtt name → Absent raw name

module _ (x : String) where
  abbrev IsIn : List String → Type 0
  IsIn [] = ⊥
  IsIn (y ∷ ys) = (y ≡ x) ⊎ IsIn ys

  IsIn-left : (xs ys : List String) → IsIn xs → IsIn (xs ++ ys)
  IsIn-left [] ys h = elim h [ ]
  IsIn-left (y ∷ xs) ys (inl e) = inl e
  IsIn-left (y ∷ xs) ys (inr h) = inr (IsIn-left xs ys h)

  IsIn-right : (xs ys : List String) → IsIn ys → IsIn (xs ++ ys)
  IsIn-right [] ys h = h
  IsIn-right (y ∷ xs) ys h = inr (IsIn-right xs ys h)

  -- it is in the middle of three lists, or the last of two
  IsIn-middle : (xs ys zs : List String) → IsIn ys → IsIn ((xs ++ ys) ++ zs)
  IsIn-middle xs ys zs h = IsIn-left (xs ++ ys) zs (IsIn-right xs ys h)

-- what is reported of one parameter
abbrev reported : {A : Type 0} → Option A → String → List String
reported o name = report (not (is_some o)) name

reported-IsIn :
    {A : Type 0} → (o : Option A) (name : String) → o ≡ none → IsIn name (reported o name)
reported-IsIn o name e = rw e (inl refl)

mqtt-IsIn :
    (o : Option RawMqttConfig) (name : String) → AbsentMqtt o name → IsIn name (missing_mqtt o)
unfolding missing_mqtt
mqtt-IsIn none _ (no_host e) = inl refl
mqtt-IsIn none _ (no_port e) = inr (inl refl)
mqtt-IsIn none _ (no_username e) = inr (inr (inl refl))
mqtt-IsIn none _ (no_password e) = inr (inr (inr (inl refl)))
mqtt-IsIn (some m) _ (no_host e) = rw e (inl refl)
mqtt-IsIn (some m) _ (no_port e) =
    IsIn-left _
      (reported m.host "mqtt.host"
        ++ reported m.port "mqtt.port"
        ++ reported m.username "mqtt.username")
      (reported m.password "mqtt.password")
      (IsIn-middle _ (reported m.host "mqtt.host") (reported m.port "mqtt.port")
        (reported m.username "mqtt.username") (reported-IsIn m.port "mqtt.port" e))
mqtt-IsIn (some m) _ (no_username e) =
    IsIn-middle _ (reported m.host "mqtt.host" ++ reported m.port "mqtt.port")
      (reported m.username "mqtt.username") (reported m.password "mqtt.password")
      (reported-IsIn m.username "mqtt.username" e)
mqtt-IsIn (some m) _ (no_password e) =
    IsIn-right _
      (reported m.host "mqtt.host"
        ++ reported m.port "mqtt.port"
        ++ reported m.username "mqtt.username")
      (reported m.password "mqtt.password") (reported-IsIn m.password "mqtt.password" e)

Absent-IsIn :
    (raw : RawProxyConfig) (name : String) → Absent raw name → IsIn name (missing_required raw)
unfolding missing_required
Absent-IsIn raw _ (no_url e) = rw e (inl refl)
Absent-IsIn raw _ (no_listen_port e) =
    IsIn-middle _ (reported raw.central_system_url "central_system_url")
      (reported raw.listen_port "listen_port") (missing_mqtt raw.mqtt)
      (reported-IsIn raw.listen_port "listen_port" e)
Absent-IsIn raw name (no_mqtt h) =
    IsIn-right name
      (reported raw.central_system_url "central_system_url"
        ++ reported raw.listen_port "listen_port")
      (missing_mqtt raw.mqtt) (mqtt-IsIn raw.mqtt name h)

-- The text stands in the other one.
abbrev pub Mentions : String → String → Type 0
Mentions d t = (a : String) × (b : String) × (d ≡ format (a ∷ t ∷ b ∷ []))

join-Mentions :
    (name : String) (xs : List String)
    → IsIn name xs
    → Mentions (join "\n" (bullets xs)) (format ("  - " ∷ name ∷ []))
join-Mentions name [] h = elim h [ ]
join-Mentions name (y ∷ []) (inr h) = elim h [ ]
join-Mentions name (y ∷ []) (inl e) =
    rw e ("", "", simp (text-append_assoc, text-append-nil, nil-append) refl)
join-Mentions name (y ∷ z ∷ zs) (inl e) = rw e (
  "",
  Text.◌++◌ "\n" (join "\n" (bullets (z ∷ zs))),
  simp (text-append_assoc, text-append-nil, nil-append) refl,
)
join-Mentions name (y ∷ z ∷ zs) (inr h) =
    let (a, b, e) = join-Mentions name (z ∷ zs) h in
    (
      format ("  - " ∷ y ∷ "\n" ∷ a ∷ []),
      b,
      ap (λ j. format (format ("  - " ∷ y ∷ []) ∷ "\n" ∷ j ∷ [])) e
          ∙ simp (text-append_assoc, text-append-nil, nil-append) refl,
    )

Mentions-end :
    (x s y d line : String) → Mentions d line → Mentions (format (x ∷ s ∷ y ∷ d ∷ [])) line
Mentions-end x s y d line (a, b, e) = (
  format (x ∷ s ∷ y ∷ a ∷ []),
  b,
  ap (λ j. format (x ∷ s ∷ y ∷ j ∷ [])) e ∙ simp (text-append_assoc, text-append-nil) refl,
)

IsIn-is_empty : (name : String) (xs : List String) → IsIn name xs → is_empty xs ≡ false
IsIn-is_empty name [] h = elim h [ ]
IsIn-is_empty name (x ∷ xs) h = refl

check_missing-Absent :
    (raw : RawProxyConfig) (name : String)
    → Absent raw name
    → (d : String) × (check_missing (some raw) ≡ err (Errors.config d))
      × Mentions d (format ("  - " ∷ name ∷ []))
unfolding check_missing
check_missing-Absent raw name absent =
    let there = Absent-IsIn raw name absent in
    rw (IsIn-is_empty name (missing_required raw) there)
      (_, refl, Mentions-end _ _ _ _ _ (join-Mentions name (missing_required raw) there))

module _ {Settings : Type 0} (show : F64 → String) (files : Files) (settings : Settings)
    (to_raw : Settings → Option RawProxyConfig)
    (to_config : Settings → Result String ProxyConfig) where
  -- Where the settings can be read with all parameters optional and a required parameter is absent, the load
  -- fails with a configuration error that has a line for that parameter. So one failure names all the parameters that are
  -- absent, whatever the settings would deserialise to.
  pub load_from_path-Absent :
      (raw : RawProxyConfig) (name : String)
      → to_raw settings ≡ some raw
      → Absent raw name
      → (d : String) × (load_from_path show files (ok settings) to_raw to_config
          ≡ err (Errors.config d))
        × Mentions d (format ("  - " ∷ name ∷ []))
  unfolding load_from_path
  load_from_path-Absent raw name e absent =
      let (d, failed, named) = check_missing-Absent raw name absent in
      (d, rw (e, failed) refl, named)
