-- ===== src/Config/Charging.antt =====
-- `ChargingConfig` of src/config.rs.
use ocpp_proxy.Base.{
  ℕ, suc, String, Bool, true, false, not, ◌&&◌, ◌||◌, Option, none, some, List, [], ◌∷◌, ◌++◌, leb,
  ltb, eqb,
}
use ocpp_proxy.Base.Text.{format, decimal}
use ocpp_proxy.Base.Float
use ocpp_proxy.Base.Float.{F64}
use ocpp_proxy.Json.Int.{ℤ, pos, negsuc}

pub data ChargingProfilePurpose : Type 0 where
  charge_point_max_profile tx_default_profile : ChargingProfilePurpose

pub data ChargingProfileKind : Type 0 where
  absolute relative : ChargingProfileKind

pub data ChargingRateUnit : Type 0 where
  amperes watts : ChargingRateUnit

-- `as_str` of the three
abbrev pub purpose_str : ChargingProfilePurpose → String
purpose_str charge_point_max_profile = "ChargePointMaxProfile"
purpose_str tx_default_profile = "TxDefaultProfile"

abbrev pub kind_str : ChargingProfileKind → String
kind_str absolute = "Absolute"
kind_str relative = "Relative"

abbrev pub unit_str : ChargingRateUnit → String
unit_str amperes = "A"
unit_str watts = "W"

pub record ChargingConfig : Type 0 where
  pub enabled : Bool
  pub max_limit_a : F64
  pub min_limit_a : F64
  pub connector_id : ℕ
  pub profile_id : ℤ
  pub stack_level : ℕ
  pub purpose : ChargingProfilePurpose
  pub profile_kind : ChargingProfileKind
  pub rate_unit : ChargingRateUnit
  pub number_phases : Option ℕ
  pub nominal_voltage_v : F64
  pub command_timeout_seconds : ℕ
  pub reapply_on_connect : Bool
  pub allowed_configuration_keys : List String

-- `Default for ChargingConfig`
abbrev pub default : ChargingConfig
default = record {
  enabled = false;
  max_limit_a = Float.thirty_two;
  min_limit_a = Float.six;
  connector_id = 0;
  profile_id = pos 1001;
  stack_level = 0;
  purpose = tx_default_profile;
  profile_kind = absolute;
  rate_unit = amperes;
  number_phases = some 1;
  nominal_voltage_v = Float.two_hundred_thirty;
  command_timeout_seconds = 30;
  reapply_on_connect = true;
  allowed_configuration_keys =
      "MeterValueSampleInterval" ∷ "MeterValuesSampledData" ∷ "ClockAlignedDataInterval"
      ∷ "MeterValuesAlignedData" ∷ "StopTxnSampledData" ∷ "StopTxnAlignedData" ∷ [];
}

-- `errors.push(message)` under a test
abbrev pub report : Bool → String → List String
report true message = message ∷ []
report false message = []

abbrev show_int : ℤ → String
show_int (pos n) = decimal n
show_int (negsuc n) = format ("-" ∷ decimal (suc n) ∷ [])

-- `{:?}` of an `Option<u32>`
abbrev show_option : Option ℕ → String
show_option none = "None"
show_option (some n) = format ("Some(" ∷ decimal n ∷ ")" ∷ [])

abbrev pub is_positive : ℤ → Bool
is_positive (pos n) = ltb 0 n
is_positive (negsuc n) = false

abbrev pub is_site_wide : ChargingProfilePurpose → Bool
is_site_wide charge_point_max_profile = true
is_site_wide tx_default_profile = false

-- `Some(0) | Some(4..)`
abbrev pub bad_phases : Option ℕ → Bool
bad_phases none = false
bad_phases (some n) = eqb n 0 || leb 4 n

-- `(100.0..=480.0).contains(&v)`
abbrev pub is_mains : F64 → Bool
is_mains v = Float.le Float.one_hundred v && Float.le v Float.four_hundred_eighty

-- `ChargingConfig::validate`
unfoldable pub validate : (F64 → String) → ChargingConfig → List String
validate show c =
    report
      (not (Float.is_finite c.max_limit_a)
        || Float.le c.max_limit_a Float.zero
        || Float.lt Float.eighty c.max_limit_a)
      (format
        ("charging.max_limit_a must be between 0 and 80 (amps), got: " ∷ show c.max_limit_a ∷ []))
    ++ report (not (Float.is_finite c.min_limit_a) || Float.lt c.min_limit_a Float.zero)
        (format ("charging.min_limit_a must be zero or positive, got: " ∷ show c.min_limit_a ∷ []))
    ++ report (Float.lt c.max_limit_a c.min_limit_a) (
        format (
          "charging.min_limit_a ("
          ∷ show c.min_limit_a
          ∷ ") must not exceed charging.max_limit_a ("
          ∷ show c.max_limit_a
          ∷ ")"
          ∷ []))
    ++ report (not (is_positive c.profile_id)) (
        format
          ("charging.profile_id must be a positive integer, got: " ∷ show_int c.profile_id ∷ []))
    ++ report (is_site_wide c.purpose && not (eqb c.connector_id 0)) (
        format (
          "charging.connector_id must be 0 for ChargePointMaxProfile, got: "
          ∷ decimal c.connector_id
          ∷ []))
    ++ report (bad_phases c.number_phases) (
        format (
          "charging.number_phases must be 1, 2, 3 or null, got: "
          ∷ show_option c.number_phases
          ∷ []))
    ++ report (not (Float.is_finite c.nominal_voltage_v) || not (is_mains c.nominal_voltage_v)) (
        format (
          "charging.nominal_voltage_v must be between 100 and 480, got: "
          ∷ show c.nominal_voltage_v
          ∷ []))
    ++ report (not (leb 1 c.command_timeout_seconds && leb c.command_timeout_seconds 300)) (
        format (
          "charging.command_timeout_seconds must be between 1 and 300, got: "
          ∷ decimal c.command_timeout_seconds
          ∷ []))
