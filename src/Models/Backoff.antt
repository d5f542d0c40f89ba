-- ===== src/Models/Backoff.antt =====
-- `ExponentialBackoff` of src/models.rs. A `Duration` is its number of nanoseconds; the conversions
-- between durations and floats, and the product of floats, are arguments.
use ocpp_proxy.Base.{ap, ℕ, zero, suc, ◌*◌, ◌≤◌, ◌≡◌, refl, min, List, [], ◌∷◌, All, arith}
use ocpp_proxy.Base.Float
use ocpp_proxy.Base.Float.{F64}

pub record ExponentialBackoff : Type 0 where
  pub initial : ℕ
  pub max : ℕ
  pub current : ℕ
  pub multiplier : F64

-- `ExponentialBackoff::new`
unfoldable pub new : ℕ → ℕ → F64 → ExponentialBackoff
new initial max multiplier = record {
  initial = initial;
  max = max;
  current = initial;
  multiplier = multiplier;
}

-- `ExponentialBackoff::with_defaults`
unfoldable pub with_defaults : ℕ → ℕ → ExponentialBackoff
unfolding new
with_defaults initial max = new initial max Float.two

-- `ExponentialBackoff::reset`
unfoldable pub reset : ExponentialBackoff → ExponentialBackoff
reset b = record b { current = b.initial }

-- `as_secs_f64`, `*` and `from_secs_f64`
pub record Seconds : Type 0 where
  pub as_secs_f64 : ℕ → F64
  pub mul : F64 → F64 → F64
  pub from_secs_f64 : F64 → ℕ

module _ (secs : Seconds) where
  -- `ExponentialBackoff::next_delay`
  unfoldable pub next_delay : ExponentialBackoff → ℕ × ExponentialBackoff
  next_delay b =
      let delay = min b.current b.max in
      let next_millis =
        Float.min (secs.mul (secs.as_secs_f64 b.current) b.multiplier) (secs.as_secs_f64 b.max) in
      (delay, record b { current = secs.from_secs_f64 next_millis })

  -- The delays of `n` failed attempts in a row.
  unfoldable pub delays : ℕ → ExponentialBackoff → List ℕ
  unfolding next_delay
  delays zero b = []
  delays (suc n) b = (next_delay b).0 ∷ delays n (next_delay b).1

  -- No delay is longer than the maximum, however the floats round.
  pub delays-le-max : (n : ℕ) (b : ExponentialBackoff) → All (λ d. d ≤ b.max) (delays n b)
  unfolding delays next_delay
  delays-le-max zero b = tt
  delays-le-max (suc n) b = (omega arith, delays-le-max n (next_delay b).1)

-- Doubling is exact on the durations up to `max`: a float holds them without rounding.
abbrev pub IsExact : Seconds → ℕ → Type 0
IsExact secs max =
    (d : ℕ)
    → d ≤ max
    → secs.from_secs_f64
        (Float.min (secs.mul (secs.as_secs_f64 d) Float.two) (secs.as_secs_f64 max))
      ≡ min (2 * d) max

-- The delays that the documentation names: doubling from `d`, cut off at `max`.
unfoldable pub doubling : ℕ → ℕ → ℕ → List ℕ
doubling zero d max = []
doubling (suc n) d max = min d max ∷ doubling n (2 * d) max

doubling_capped : (n d e max : ℕ) → min d max ≡ min e max → doubling n d max ≡ doubling n e max
unfolding doubling
doubling_capped zero d e max h = refl
doubling_capped (suc n) d e max h =
    ground (arith, doubling_capped n (2 * d) (2 * e) max (omega arith))

delays-doubling :
    (secs : Seconds) (n : ℕ) (b : ExponentialBackoff)
    → IsExact secs b.max
    → b.multiplier ≡ Float.two
    → b.current ≤ b.max
    → delays secs n b ≡ doubling n b.current b.max
unfolding delays doubling next_delay
delays-doubling secs zero b exact m h = refl
delays-doubling secs (suc n) b exact m h = ground (
  arith,
  exact b.current h,
  delays-doubling secs n (next_delay secs b).1 exact m (
      omega (
        arith,
        ap
            (λ x.
              secs.from_secs_f64
                (Float.min (secs.mul (secs.as_secs_f64 b.current) x) (secs.as_secs_f64 b.max)))
            m,
        exact b.current h,
      )),
  doubling_capped n (min (2 * b.current) b.max) (2 * b.current) b.max (omega arith),
)

-- Of a backoff made by `with_defaults` with its initial delay at most its maximum, the delays of any
-- number of failures in a row are the initial delay doubled each time and cut off at the maximum,
-- where the floats hold these durations exactly.
pub delays-with_defaults :
    (secs : Seconds) (n initial max : ℕ)
    → IsExact secs max
    → initial ≤ max
    → delays secs n (with_defaults initial max) ≡ doubling n initial max
unfolding with_defaults
delays-with_defaults secs n initial max exact h =
    delays-doubling secs n (with_defaults initial max) exact refl h
