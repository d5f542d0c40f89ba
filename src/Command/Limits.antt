-- ===== src/Command/Limits.antt =====
-- The policy for a requested limit (src/command.rs), and its bounds under a sound configuration.
use ocpp_proxy.Base.{
  String, true, false, not, ◌||◌, Option, none, some, [], ◌∷◌, ◌≡◌, ◌⊎◌, inl, inr, Result, ok, err,
  if◌then◌else◌, arith, Bool-cases, Result-cases,
}
use ocpp_proxy.Base.Text.{format}
use ocpp_proxy.Base.Float
use ocpp_proxy.Base.Float.{F64, Arithmetic}
use ocpp_proxy.Config.Charging.{ChargingConfig}
use ocpp_proxy.Config.Checks.{IsSound}

pub record ResolvedLimit : Type 0 where
  pub requested_a : F64
  pub applied_a : F64
  pub detail : Option String

module _ (a : Arithmetic) where
  -- the closure `round` of `resolve_limit`
  abbrev pub round_tenth : F64 → F64
  round_tenth x = a.div (a.round (a.mul x Float.ten)) Float.ten

  -- `resolve_limit`
  unfoldable pub resolve_limit : ChargingConfig → F64 → Result String ResolvedLimit
  resolve_limit config requested_a =
      if not (Float.is_finite requested_a) || Float.lt requested_a Float.zero
      then err (format ("limit_a must be a non-negative number, got " ∷ a.show requested_a ∷ []))
      else if Float.eq requested_a Float.zero
      then ok (record {
        requested_a = requested_a;
        applied_a = Float.zero;
        detail =
            some
              "0 A pauses charging (the charger reports SuspendedEVSE); the transaction stays open";
      })
      else if Float.lt requested_a config.min_limit_a
      then ok (record {
        requested_a = requested_a;
        applied_a = Float.zero;
        detail = some (
            format (
              a.show requested_a
              ∷ " A is below the "
              ∷ a.show config.min_limit_a
              ∷ " A minimum an EV will charge at; sending 0 A, which pauses charging"
              ∷ []));
      })
      else if Float.lt config.max_limit_a requested_a
      then ok (record {
        requested_a = requested_a;
        applied_a = round_tenth config.max_limit_a;
        detail = some (
            format
              ("clamped to the configured ceiling of " ∷ a.show config.max_limit_a ∷ " A" ∷ []));
      })
      else ok
          (record { requested_a = requested_a; applied_a = round_tenth requested_a; detail = none })

  resolve_limit_total :
      (config : ChargingConfig) (r : F64)
      → Float.is_finite r ≡ true
      → Float.lt r Float.zero ≡ false
      → (l : ResolvedLimit) × (resolve_limit config r ≡ ok l)
  unfolding resolve_limit
  resolve_limit_total config r f n = elim (Result-cases (resolve_limit config r)) [
    | inl found ↦ found
    | inr (e, p) ↦ absurd (ground arith)
  ]

  pub resolve_limit_finite :
      (config : ChargingConfig) (r : F64) (l : ResolvedLimit)
      → resolve_limit config r ≡ ok l
      → (Float.is_finite r ≡ true) × (Float.lt r Float.zero ≡ false)
  unfolding resolve_limit
  resolve_limit_finite config r l h = (ground arith, ground arith)

  -- 0, or the rounding of a value between the configured limits
  abbrev pub IsAllowed : ChargingConfig → F64 → Type 0
  IsAllowed config applied =
      (applied ≡ Float.zero)
      ⊎ ((x : F64) × (applied ≡ round_tenth x)
          × (Float.le config.min_limit_a x ≡ true)
          × (Float.le x config.max_limit_a ≡ true))

  resolve_limit-IsAllowed :
      (config : ChargingConfig) (r : F64) (l : ResolvedLimit)
      → IsSound config
      → Float.is_finite r ≡ true
      → resolve_limit config r ≡ ok l
      → IsAllowed config l.applied_a
  unfolding resolve_limit
  resolve_limit-IsAllowed config r l v f h =
      elim (Bool-cases (Float.eq r Float.zero || Float.lt r config.min_limit_a)) [
        | inl paused ↦ inl (ground arith)
        | inr charging ↦ elim (Bool-cases (Float.lt config.max_limit_a r)) [
          | inl over ↦ inr (
            config.max_limit_a,
            ground arith,
            Float.lt-false-le config.max_limit_a config.min_limit_a v.max_finite v.min_finite
                v.ordered,
            Float.le_refl config.max_limit_a v.max_finite,
          )
          | inr within ↦ inr (
            r,
            ground arith,
            Float.lt-false-le r config.min_limit_a f v.min_finite (ground arith),
            Float.lt-false-le config.max_limit_a r v.max_finite f within,
          )
        ]
      ]

  -- Under a sound configuration every finite limit that is not negative is accepted and reported as
  -- it came, and what is applied is 0, or the rounding to a tenth of a value between the configured
  -- minimum and maximum.
  pub resolve_limit_bounds :
      (config : ChargingConfig) (r : F64)
      → IsSound config
      → Float.is_finite r ≡ true
      → Float.lt r Float.zero ≡ false
      → (l : ResolvedLimit) × (resolve_limit config r ≡ ok l)
        × (l.requested_a ≡ r)
        × IsAllowed config l.applied_a
  unfolding resolve_limit
  resolve_limit_bounds config r v f n =
      let (l, h) = resolve_limit_total config r f n in
      (l, h, ground arith, resolve_limit-IsAllowed config r l v f h)
