-- ===== src/Json/Int.antt =====
-- Signed integers (`i64`), with the difference that the energy of a charging session is.
use ocpp_proxy.Base.{ℕ, suc, ◌+◌, ◌-◌, ◌^◌, ◌<◌, ◌≤◌, leb, ltb, if◌then◌else◌, ◌≡◌, arith}

-- `negsuc n` is -(n + 1).
pub data ℤ : Type 0 where
  pos : ℕ → ℤ
  negsuc : ℕ → ℤ

abbrev pub pos_part : ℤ → ℕ
pos_part (pos n) = n
pos_part (negsuc n) = 0

abbrev pub neg_part : ℤ → ℕ
neg_part (pos n) = 0
neg_part (negsuc n) = suc n

abbrev sub_ℕ : ℕ → ℕ → ℤ
sub_ℕ a b = if leb b a then pos (a - b) else negsuc (b - a - 1)

infixl 65 ◌-ℤ◌
unfoldable pub ◌-ℤ◌ : ℤ → ℤ → ℤ
a -ℤ b = sub_ℕ (pos_part a + neg_part b) (neg_part a + pos_part b)

-- The difference is the integer that, added to `b`, gives `a`.
pub -ℤ_parts :
    (a b : ℤ)
    → pos_part (a -ℤ b) + neg_part a + pos_part b ≡ neg_part (a -ℤ b) + pos_part a + neg_part b
unfolding ◌-ℤ◌
-ℤ_parts a b = ground arith

-- `-` on `i64`, as a release build computes it: the difference wraps around at 64 bits.
wrap : ℤ → ℤ
wrap (pos n) = if ltb n (2 ^ 63) then pos n else negsuc (2 ^ 64 - n - 1)
wrap (negsuc n) = if ltb n (2 ^ 63) then negsuc n else pos (2 ^ 64 - n - 1)

unfoldable pub sub_i64 : ℤ → ℤ → ℤ
unfolding ◌-ℤ◌ wrap
sub_i64 a b = wrap (a -ℤ b)

wrap-exact : (d : ℤ) → pos_part d < 2 ^ 63 → neg_part d ≤ 2 ^ 63 → wrap d ≡ d
unfolding wrap
wrap-exact (pos n) h k = ground arith
wrap-exact (negsuc n) h k = ground arith

-- Where the difference fits in 64 bits, it is the integer difference.
pub sub_i64-exact :
    (a b : ℤ) → pos_part (a -ℤ b) < 2 ^ 63 → neg_part (a -ℤ b) ≤ 2 ^ 63 → sub_i64 a b ≡ a -ℤ b
unfolding sub_i64
sub_i64-exact a b h k = wrap-exact (a -ℤ b) h k
