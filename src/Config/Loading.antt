-- ===== src/Config/Loading.antt =====
-- What a configuration that `load_from_path` returns satisfies (src/config.rs).
use ocpp_proxy.Base.{
  String, true, Option, none, some, List, [], ◌∷◌, ◌≡◌, ap, Result, ok, is_empty, is_some, arith,
  refl,
}
use ocpp_proxy.Base.Float.{F64}
use ocpp_proxy.Config.{
  ProxyConfig, RawProxyConfig, RawMqttConfig, Files, validate, missing_required, check_missing,
  load_from_path,
}
use ocpp_proxy.Config.Checks.{IsValid, validate_iff}

is_empty-nil : (xs : List String) → is_empty xs ≡ true → xs ≡ []
is_empty-nil [] h = refl
is_empty-nil (x ∷ xs) h = absurd (cc)

-- No required parameter is absent.
pub record IsComplete (raw : RawProxyConfig) : Type 0 where
  pub url : is_some raw.central_system_url ≡ true
  pub port : is_some raw.listen_port ≡ true
  pub mqtt :
      (m : RawMqttConfig) × (raw.mqtt ≡ some m)
      × (is_some m.host ≡ true)
      × (is_some m.port ≡ true)
      × (is_some m.username ≡ true)
      × (is_some m.password ≡ true)

missing_required-nil : (raw : RawProxyConfig) → missing_required raw ≡ [] → IsComplete raw
unfolding missing_required
missing_required-nil raw h = go raw.mqtt refl
  where
    go : (o : Option RawMqttConfig) → raw.mqtt ≡ o → IsComplete raw
    go none e = absurd (ground arith)
    go (some m) e = record {
      url = ground arith;
      port = ground arith;
      mqtt = (m, e, ground arith, ground arith, ground arith, ground arith);
    }

checked-missing :
    (raw : RawProxyConfig)
    → check_missing (some raw) ≡ ok tt
    → is_empty (missing_required raw) ≡ true
unfolding check_missing
checked-missing raw h = ground arith

module _ {Settings : Type 0} (show : F64 → String) (files : Files) (settings : Settings)
    (to_raw : Settings → Option RawProxyConfig)
    (to_config : Settings → Result String ProxyConfig) where
  -- Where the settings can be read with all parameters optional, a configuration that is loaded has
  -- passed every check of the validation, is the one that the settings deserialise to, and lacks none
  -- of the required parameters.
  pub load_from_path-IsValid :
      (c : ProxyConfig) (raw : RawProxyConfig)
      → to_raw settings ≡ some raw
      → load_from_path show files (ok settings) to_raw to_config ≡ ok c
      → IsValid files c × (to_config settings ≡ ok c) × IsComplete raw
  unfolding load_from_path
  load_from_path-IsValid c raw e h = (
    (validate_iff show files c).0 (is_empty-nil (validate show files c) (ground arith)),
    ground arith,
    missing_required-nil raw (
        is_empty-nil (missing_required raw)
          (checked-missing raw (ground (arith, ap check_missing e)))),
  )
