-- ===== src/Command/Router.antt =====
-- `CommandRouter` of src/command.rs: which session takes the commands for a charge point. The
-- channels are an argument: sending one request without waiting changes the world `W`.
use ocpp_proxy.Base.{
  ℕ, String, Bool, true, false, none, some, List, Result, ok, err, ◌≡◌, ◌≢◌, arith, ◌==◌,
  if◌then◌else◌, eqb, is_some, lookup, insert, remove, lookup-insert, lookup-remove, eq_refl,
}
use ocpp_proxy.Command.{CommandRequest}

pub data DispatchError : Type 0 where
  not_connected queue_full : DispatchError

-- what `try_send` says of a channel
pub data SendOutcome : Type 0 where
  delivered full closed : SendOutcome

pub record Registration (Tx : Type 0) : Type 0 where
  pub generation : ℕ
  pub tx : Tx

abbrev pub Router : Type 0 → Type 0
Router Tx = List (String × Registration Tx)

module _ {Tx : Type 0} where
  -- `register`
  unfoldable pub register : String → ℕ → Tx → (Router Tx) → (Router Tx)
  register id generation tx r = insert id (record { generation = generation; tx = tx }) r

  -- `deregister`
  unfoldable pub deregister : String → ℕ → (Router Tx) → Bool × (Router Tx)
  deregister id generation r = elim (lookup id r) [
    | none ↦ (false, r)
    | some reg ↦ if eqb reg.generation generation then (true, remove id r) else (false, r)
  ]

  -- `is_connected`
  unfoldable pub is_connected : String → (Router Tx) → Bool
  is_connected id r = is_some (lookup id r)

  module _ {W : Type 0} (try_send : Tx → CommandRequest → W → SendOutcome × W) where
    unfoldable pub answer : SendOutcome → Result DispatchError (Unit {0})
    answer delivered = ok tt
    answer full = err queue_full
    answer closed = err not_connected

    -- `dispatch`
    unfoldable pub dispatch :
        String → CommandRequest → (Router Tx) → W → Result DispatchError (Unit {0}) × W
    unfolding answer
    dispatch id request r w = elim (lookup id r) [
      | none ↦ (err not_connected, w)
      | some reg ↦ (answer (try_send reg.tx request w).0, (try_send reg.tx request w).1)
    ]

  -- A session that a newer one has displaced cannot remove its successor: after the newer session
  -- has registered under another generation, the older one's deregistration reports false and
  -- leaves every lookup as it is; the newer one's removes its own entry and no other.
  pub deregister_displaced :
      (id : String) (old new : ℕ) (tx₁ tx₂ : Tx) (r : (Router Tx))
      → old ≢ new
      → let both = register id new tx₂ (register id old tx₁ r) in
        (deregister id old both ≡ (false, both))
        × (lookup id both ≡ some (record { generation = new; tx = tx₂ }))
        × ((deregister id new both).0 ≡ true)
        × ((j : String)
            → lookup j (deregister id new both).1 ≡ (if id == j then none else lookup j r))
  unfolding deregister register
  deregister_displaced id old new tx₁ tx₂ r n =
      let both : (Router Tx) =
        insert id (record { generation = new; tx = tx₂ })
          (insert id (record { generation = old; tx = tx₁ }) r) in
      let found : lookup id both ≡ some (record { generation = new; tx = tx₂ }) = ground (
        arith,
        lookup-insert id id (record { generation = new; tx = tx₂ })
            (insert id (record { generation = old; tx = tx₁ }) r),
        eq_refl id,
      ) in
      (
        ground arith,
        found,
        ground arith,
        λ j. ground (
          arith,
          lookup-remove id j both,
          lookup-insert id j (record { generation = new; tx = tx₂ })
              (insert id (record { generation = old; tx = tx₁ }) r),
          lookup-insert id j (record { generation = old; tx = tx₁ }) r,
        ),
      )
