-- ===== src/Main/Outcomes.antt =====
-- The wait at the end of the program is over by its deadline (src/main.rs).
use ocpp_proxy.Base.{
  ℕ, ◌≤◌, true, some, List, [], ◌∷◌, ◌++◌, ◌≡◌, refl, ◌⊎◌, inl, inr, arith, eqb, leb, Bool-cases,
}
use ocpp_proxy.Main.{drain}

-- a turn of the wait
abbrev pub IsTurn : ℕ × ℕ → List (ℕ × ℕ) → Type 0
IsTurn t [] = ⊥
IsTurn t (u ∷ us) = (u ≡ t) ⊎ IsTurn t us

-- The wait at the end of the program is over by the first turn at the deadline or later, whatever the turns before;
-- the number of sessions that it abandons is 0, or the number of connections at a turn that was not before the deadline.
pub drain_lem :
    (deadline : ℕ) (turns : List (ℕ × ℕ)) (instant remaining : ℕ)
    → deadline ≤ instant
    → (n : ℕ) × (drain deadline (turns ++ (instant, remaining) ∷ []) ≡ some n)
      × ((n ≡ 0) ⊎ ((t : ℕ) × (deadline ≤ t) × IsTurn (t, n) (turns ++ (instant, remaining) ∷ [])))
unfolding drain
drain_lem deadline [] instant remaining late = elim (Bool-cases (eqb remaining 0)) [
  | inl e ↦ rw e (0, refl, inl refl)
  | inr e ↦
      let over : leb deadline instant ≡ true = ground arith in
      rw (e, over) (remaining, refl, inr (instant, late, inl refl))
]
drain_lem deadline ((i, r) ∷ turns) instant remaining late =
    let (n, ends, why) = drain_lem deadline turns instant remaining late in
    elim (Bool-cases (eqb r 0)) [
      | inl e ↦ rw e (0, refl, inl refl)
      | inr e ↦ elim (Bool-cases (leb deadline i)) [
        | inl l ↦ rw (e, l) (r, refl, inr (i, ground arith, inl refl))
        | inr l ↦
            rw (e, l)
              (
                n,
                ends,
                elim why [ inl z ↦ inl z | inr (t, after, there) ↦ inr (t, after, inr there) ],
              )
      ]
    ]
