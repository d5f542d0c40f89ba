-- ===== src/Base/Float.antt =====
-- `f64` as its bit pattern, with the comparisons of IEEE 754. Arithmetic on it is no part of this
-- module: what computes with it takes the operation as an argument.
use Prim.Native.String.{String}
use Prim.Native.Nat.{ℕ, ◌-◌}
use mathlib.Core.Path.{◌≡◌}
use mathlib.Core.Bool.{Bool, true, false, not, ◌&&◌}
use native.Mathlib.Omega.{arith}
use ocpp_proxy.Base.Tests.{if◌then◌else◌, leb, ltb, eqb}

pub record F64 : Type 0 where
  pub bits : ℕ

abbrev pub sign_bit : ℕ
sign_bit = 0x8000_0000_0000_0000

abbrev pub infinity_bits : ℕ
infinity_bits = 0x7ff0_0000_0000_0000

-- The bits but for the sign; they order values of one sign.
abbrev pub magnitude : F64 → ℕ
magnitude x = if ltb x.bits sign_bit then x.bits else x.bits - sign_bit

abbrev pub is_negative : F64 → Bool
is_negative x = leb sign_bit x.bits

abbrev pub is_nan : F64 → Bool
is_nan x = ltb infinity_bits (magnitude x)

-- `x.is_finite()`
unfoldable pub is_finite : F64 → Bool
is_finite x = ltb (magnitude x) infinity_bits

-- the order of two values that are numbers
unfoldable pub lt_number : F64 → F64 → Bool
lt_number x y =
    if is_negative x
    then (if is_negative y
        then ltb (magnitude y) (magnitude x)
        else not (eqb (magnitude x) 0 && eqb (magnitude y) 0))
    else (if is_negative y then false else ltb (magnitude x) (magnitude y))

-- `x < y`
unfoldable pub lt : F64 → F64 → Bool
unfolding lt_number
lt x y = not (is_nan x) && not (is_nan y) && lt_number x y

-- `x <= y`
unfoldable pub le : F64 → F64 → Bool
unfolding lt_number
le x y = not (is_nan x) && not (is_nan y) && not (lt_number y x)

-- `x == y`
unfoldable pub eq : F64 → F64 → Bool
unfolding lt_number
eq x y = le x y && le y x

-- `x.min(y)` of `f64`: the other one where one is not a number
unfoldable pub min : F64 → F64 → F64
unfolding lt
min x y = if is_nan x then y else if is_nan y then x else if lt y x then y else x

abbrev pub zero : F64
zero = record { bits = 0 }

abbrev pub two : F64
two = record { bits = 0x4000_0000_0000_0000 }

abbrev pub six : F64
six = record { bits = 0x4018_0000_0000_0000 }

abbrev pub thirty_two : F64
thirty_two = record { bits = 0x4040_0000_0000_0000 }

abbrev pub eighty : F64
eighty = record { bits = 0x4054_0000_0000_0000 }

abbrev pub one_hundred : F64
one_hundred = record { bits = 0x4059_0000_0000_0000 }

abbrev pub two_hundred_thirty : F64
two_hundred_thirty = record { bits = 0x406c_c000_0000_0000 }

abbrev pub four_hundred_eighty : F64
four_hundred_eighty = record { bits = 0x407e_0000_0000_0000 }

-- Between finite values, "not less" is "at most" the other way round.
pub lt-false-le :
    (x y : F64) → is_finite x ≡ true → is_finite y ≡ true → lt x y ≡ false → le y x ≡ true
unfolding is_finite lt le
lt-false-le x y = ground arith

pub le_refl : (x : F64) → is_finite x ≡ true → le x x ≡ true
unfolding is_finite le
le_refl x = ground arith

pub le_trans : (x y z : F64) → le x y ≡ true → le y z ≡ true → le x z ≡ true
unfolding le
le_trans x y z = ground arith

-- The arithmetic of `f64` and its printing, which the program calls.
pub record Arithmetic : Type 0 where
  pub mul : F64 → F64 → F64
  pub div : F64 → F64 → F64
  pub round : F64 → F64
  pub of_nat : ℕ → F64
  pub show : F64 → String

abbrev pub ten : F64
ten = record { bits = 0x4024_0000_0000_0000 }

-- What is above a value is not below anything that the value is not below.
pub lt-false_above :
    (x m r : F64)
    → is_finite x ≡ true
    → is_finite m ≡ true
    → is_finite r ≡ true
    → lt m x ≡ false
    → lt m r ≡ true
    → lt r x ≡ false
unfolding is_finite lt
lt-false_above x m r = ground arith

pub above_positive :
    (m r : F64)
    → is_finite m ≡ true
    → is_finite r ≡ true
    → le m zero ≡ false
    → lt m r ≡ true
    → (lt r zero ≡ false) × (eq r zero ≡ false)
unfolding is_finite lt le eq
above_positive m r f g h k = (ground arith, ground arith)
