-- ===== src/Config/Checks.antt =====
-- What a configuration without validation errors satisfies (src/config.rs).
use text.Mathlib.Text.{starts_with}
use ocpp_proxy.Base.{
  ℕ, ◌≤◌, ◌<◌, String, Bool, true, false, not, ◌&&◌, Option, none, some, List, [], ◌∷◌, ◌++◌, ◌≡◌,
  ◌≢◌, ◌↔◌, ◌⊎◌, refl, arith, is_some, eqb,
}
use ocpp_proxy.Base.Float
use ocpp_proxy.Base.Float.{F64}
use ocpp_proxy.Json.Int.{pos, negsuc, ℤ}
use ocpp_proxy.Config.{ProxyConfig, Files, check_path, validate}
use ocpp_proxy.Config.Charging
use ocpp_proxy.Config.Charging.{
  ChargingConfig, charge_point_max_profile, tx_default_profile, report, is_positive, bad_phases,
  is_mains,
}

pub record IsSound (c : ChargingConfig) : Type 0 where
  pub max_finite : Float.is_finite c.max_limit_a ≡ true
  pub max_positive : Float.le c.max_limit_a Float.zero ≡ false
  pub max_ceiling : Float.lt Float.eighty c.max_limit_a ≡ false
  pub min_finite : Float.is_finite c.min_limit_a ≡ true
  pub min_positive : Float.lt c.min_limit_a Float.zero ≡ false
  pub ordered : Float.lt c.max_limit_a c.min_limit_a ≡ false
  pub profile : (n : ℕ) × (c.profile_id ≡ pos n) × (0 < n)
  pub site_wide : (c.purpose ≡ charge_point_max_profile) → c.connector_id ≡ 0
  pub phases : (n : ℕ) → c.number_phases ≡ some n → (1 ≤ n) × (n ≤ 3)
  pub voltage_finite : Float.is_finite c.nominal_voltage_v ≡ true
  pub voltage : is_mains c.nominal_voltage_v ≡ true
  pub timeout_least : 1 ≤ c.command_timeout_seconds
  pub timeout_most : c.command_timeout_seconds ≤ 300

append-eq-nil : (xs ys : List String) → (xs ++ ys ≡ []) ↔ ((xs ≡ []) × (ys ≡ []))
append-eq-nil [] ys = ground arith
append-eq-nil (x ∷ xs) ys = ground arith

report-eq-nil : (b : Bool) (m : String) → (report b m ≡ []) ↔ (b ≡ false)
report-eq-nil b m = ground arith

is_positive_sound : (z : ℤ) → is_positive z ≡ true → (n : ℕ) × (z ≡ pos n) × (0 < n)
is_positive_sound (pos n) h = (n, refl, ground arith)
is_positive_sound (negsuc n) h = absurd (cc)

bad_phases_complete :
    (o : Option ℕ) → ((n : ℕ) → o ≡ some n → (1 ≤ n) × (n ≤ 3)) → bad_phases o ≡ false
bad_phases_complete none h = refl
bad_phases_complete (some n) h = ground (arith, h n refl)

site_wide_complete :
    (c : ChargingConfig)
    → IsSound c
    → Charging.is_site_wide c.purpose && not (eqb c.connector_id 0) ≡ false
site_wide_complete c v = go c.purpose refl
  where
    go :
        (p : Charging.ChargingProfilePurpose)
        → c.purpose ≡ p
        → Charging.is_site_wide p && not (eqb c.connector_id 0) ≡ false
    go charge_point_max_profile e = ground (arith, v.site_wide e)
    go tx_default_profile e = refl

module _ (show : F64 → String) (c : ChargingConfig) where
  validate-IsSound : Charging.validate show c ≡ [] → IsSound c
  unfolding Charging.validate
  validate-IsSound h =
      let facts = simp (append-eq-nil, report-eq-nil) at h in
      record {
        max_finite = ground arith;
        max_positive = ground arith;
        max_ceiling = ground arith;
        min_finite = ground arith;
        min_positive = ground arith;
        ordered = ground arith;
        profile = is_positive_sound c.profile_id (ground arith);
        site_wide = λ e. ground arith;
        phases = λ n e. ground arith;
        voltage_finite = ground arith;
        voltage = ground arith;
        timeout_least = ground arith;
        timeout_most = ground arith;
      }

  validate_complete : IsSound c → Charging.validate show c ≡ []
  unfolding Charging.validate
  validate_complete v =
      let (n, e, p) = v.profile in
      simp (append-eq-nil, report-eq-nil)
        (
          (
            (
              (
                (((ground arith, ground arith), ground arith), ground arith),
                ground (arith, site_wide_complete c v),
              ),
              bad_phases_complete c.number_phases v.phases,
            ),
            ground arith,
          ),
          ground arith,
        )

-- A path that is given names a file that exists and opens.
abbrev pub IsReadable : Files → Option String → Type 0
IsReadable files path =
    (p : String) → path ≡ some p → (files.exists p ≡ true) × (files.opens p ≡ true)

pub record IsValid (files : Files) (c : ProxyConfig) : Type 0 where
  pub listen : 1024 ≤ c.listen_port
  pub health : 1024 ≤ c.health_port
  pub distinct : c.listen_port ≢ c.health_port
  pub scheme :
      (starts_with c.central_system_url "ws://" ≡ true)
      ⊎ (starts_with c.central_system_url "wss://" ≡ true)
  pub mqtt_port : 0 < c.mqtt.port
  pub ca_cert : IsReadable files c.mqtt.ca_cert_path
  pub client_cert : IsReadable files c.mqtt.client_cert_path
  pub client_key : IsReadable files c.mqtt.client_key_path
  pub together : is_some c.mqtt.client_cert_path ≡ is_some c.mqtt.client_key_path
  pub over_tls : is_some c.mqtt.client_cert_path ≡ true → is_some c.mqtt.ca_cert_path ≡ true
  pub charging : IsSound c.charging

check_path-eq-nil :
    (files : Files) (name : String) (path : Option String)
    → check_path files name path ≡ []
    → IsReadable files path
check_path-eq-nil files name none h p e = absurd (cc)
check_path-eq-nil files name (some q) h p e = ground arith

check_path_complete :
    (files : Files) (name : String) (path : Option String)
    → IsReadable files path
    → check_path files name path ≡ []
check_path_complete files name none h = refl
check_path_complete files name (some q) h = ground (arith, h q refl)

module _ (show : F64 → String) (files : Files) (c : ProxyConfig) where
  all_sound : validate show files c ≡ [] → IsValid files c
  unfolding validate
  all_sound h =
      let facts = simp (append-eq-nil, report-eq-nil) at h in
      record {
        listen = ground arith;
        health = ground arith;
        distinct = ground arith;
        scheme = ground arith;
        mqtt_port = ground arith;
        ca_cert = check_path-eq-nil files "mqtt.ca_cert_path" c.mqtt.ca_cert_path (ground arith);
        client_cert =
            check_path-eq-nil files "mqtt.client_cert_path" c.mqtt.client_cert_path (ground arith);
        client_key =
            check_path-eq-nil files "mqtt.client_key_path" c.mqtt.client_key_path (ground arith);
        together = ground arith;
        over_tls = λ e. ground arith;
        charging = validate-IsSound show c.charging (ground arith);
      }

  all_complete : IsValid files c → validate show files c ≡ []
  unfolding validate
  all_complete v =
      simp (append-eq-nil, report-eq-nil)
        (
          (
            (
              (
                (
                  (
                    ((((ground arith, ground arith), ground arith), ground arith), ground arith),
                    check_path_complete files "mqtt.ca_cert_path" c.mqtt.ca_cert_path v.ca_cert,
                  ),
                  check_path_complete files "mqtt.client_cert_path" c.mqtt.client_cert_path
                      v.client_cert,
                ),
                check_path_complete files "mqtt.client_key_path" c.mqtt.client_key_path
                    v.client_key,
              ),
              ground arith,
            ),
            ground arith,
          ),
          validate_complete show c.charging v.charging,
        )

  -- Validation reports nothing exactly when both ports are unprivileged and differ, the Central
  -- System URL has a WebSocket scheme, the MQTT port is not 0, each certificate path that is given
  -- names a file that exists and opens, a client certificate comes with its key and with a CA
  -- certificate, and the charging settings are sound (`IsSound`).
  pub validate_iff : (validate show files c ≡ []) ↔ IsValid files c
  validate_iff = (all_sound, all_complete)
