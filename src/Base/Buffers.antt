-- ===== src/Base/Buffers.antt =====
-- A bounded FIFO buffer (`VecDeque`): a full buffer gives up its oldest entry before a new one joins.
use Prim.Native.Nat.{ℕ, ◌≤◌, ◌<◌, max}
use mathlib.Core.Path.{◌≡◌}
use mathlib.Core.List.{List, [], ◌∷◌, ◌++◌}
use native.Mathlib.Omega.{arith}
use ocpp_proxy.Base.Tests.{if◌then◌else◌, leb}
use ocpp_proxy.Base.Lists.{length, tail, length-concat}

module _ {ℓ} {A : Type ℓ} where
  -- `if len >= max { pop_front(); } push_back(x)`
  unfoldable pub push_bounded : ℕ → A → List A → List A
  push_bounded most x xs = (if leb most (length xs) then tail xs else xs) ++ x ∷ []

  -- the entry that is given up, if any
  abbrev head : List A → List A
  head [] = []
  head (x ∷ xs) = x ∷ []

  abbrev pub given_up : ℕ → List A → List A
  given_up most xs = if leb most (length xs) then head xs else []

  -- The oldest entry is all that can go; the others keep their order, and the new one is the last.
  pub push_bounded_order :
      (most : ℕ) (x : A) (xs : List A) → given_up most xs ++ push_bounded most x xs ≡ xs ++ x ∷ []
  unfolding push_bounded
  push_bounded_order most x [] = ground arith
  push_bounded_order most x (y ∷ xs) = ground arith

  -- an empty buffer takes its first entry whatever its bound
  pub push_bounded_first : (most : ℕ) (x : A) → push_bounded most x [] ≡ x ∷ []
  unfolding push_bounded
  push_bounded_first most x = ground arith

  pub push_bounded_bound :
      (most : ℕ) (x : A) (xs : List A)
      → length xs ≤ max most 1
      → length (push_bounded most x xs) ≤ max most 1
  unfolding push_bounded
  push_bounded_bound most x [] h = ground arith
  push_bounded_bound most x (y ∷ xs) h =
      ground (arith, length-concat xs x, length-concat (y ∷ xs) x)

  -- a full buffer, and one that has grown past its bound, gets no longer
  pub push_bounded_within :
      (most n : ℕ) (x : A) (xs : List A)
      → max most 1 ≤ n
      → length xs ≤ n
      → length (push_bounded most x xs) ≤ n
  unfolding push_bounded
  push_bounded_within most n x [] m h = ground arith
  push_bounded_within most n x (y ∷ xs) m h =
      ground (arith, length-concat xs x, length-concat (y ∷ xs) x)

  -- nor shorter
  pub push_bounded_grows :
      (most : ℕ) (x : A) (xs : List A) → length xs ≤ length (push_bounded most x xs)
  unfolding push_bounded
  push_bounded_grows most x [] = ground arith
  push_bounded_grows most x (y ∷ xs) = ground (arith, length-concat xs x, length-concat (y ∷ xs) x)

  -- with room left, nothing is given up
  pub push_bounded_room :
      (most : ℕ) (x : A) (xs : List A) → length xs < most → push_bounded most x xs ≡ xs ++ x ∷ []
  unfolding push_bounded
  push_bounded_room most x xs h = ground arith
