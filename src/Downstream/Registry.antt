-- ===== src/Downstream/Registry.antt =====
-- The registry of connected chargers under connections that replace each other (src/downstream.rs).
use ocpp_proxy.Base.{
  ℕ, ◌<◌, ◌+◌, ◌%◌, ◌^◌, String, true, false, Option, none, some, ◌++◌, ◌≡◌, ◌≢◌, refl, ap, ◌∙◌,
  ◌⊎◌, inl, inr, arith, Bool-cases, Option-cases, lookup, insert, remove, lookup-insert,
  lookup-remove, eq_iff, eq_refl, eqb, eqb_iff, is_some, option_map,
}
use ocpp_proxy.Command.Router.{Router, Registration, is_connected, register, deregister}
use ocpp_proxy.Downstream.{
  ActiveConnection, DownstreamState, register_connection, deregister_connection, route, unroute,
  leave, displaced,
}

deregister-register :
    {Tx : Type 0} (id : String) (g : ℕ) (tx : Tx) (r : Router Tx)
    → lookup id (deregister id g (register id g tx r)).1 ≡ none
unfolding deregister register
deregister-register {Tx = Tx} id g tx r =
    let entry : Registration Tx = record { generation = g; tx = tx } in
    ground (
      arith,
      lookup-insert id id entry r,
      lookup-remove id id (insert id entry r),
      eq_refl id,
      eqb_iff g g,
    )

-- the next generation is another one
next_differs : (g : ℕ) → g < 2 ^ 64 → (g + 1) % 2 ^ 64 ≢ g
next_differs g small = λ same. omega (arith, small, same)

module _ {Token Tx : Type 0} where
  -- A new connection of a charger becomes its current one under the generation that is returned, the
  -- connections of any other charger stay, and the token of the one that it replaces, if any, is cancelled.
  pub register_connection_lem :
      (id other : String) (token : Token) (s : DownstreamState Token Tx)
      → other ≢ id
      → let (g, s') = register_connection id token s in
        let active : ActiveConnection Token = record { generation = g; cancel = token } in
        (lookup id s'.connections ≡ some active)
        × (lookup other s'.connections ≡ lookup other s.connections)
        × (s'.cancelled ≡ s.cancelled ++ displaced (lookup id s.connections))
  unfolding register_connection
  register_connection_lem id other token s different = (
    lookup-insert id id _ s.connections ∙ rw (eq_refl id) refl,
    lookup-insert id other _ s.connections ∙ ground (arith, eq_iff id other),
    refl,
  )

  -- the generation of the current connection
  abbrev pub current : String → DownstreamState Token Tx → Option ℕ
  current id s = option_map (λ a. a.generation) (lookup id s.connections)

  deregister_connection-cases :
      (id : String) (g : ℕ) (s : DownstreamState Token Tx)
      → ((current id s ≢ some g) × (deregister_connection id g s ≡ (false, s)))
        ⊎ ((current id s ≡ some g)
            × (deregister_connection id g s
                ≡ (true, record s { connections = remove id s.connections })))
  unfolding deregister_connection
  deregister_connection-cases id g s = elim (Option-cases (lookup id s.connections)) [
    | inl e ↦ rw (e, deregister_connection) (inl (ground arith, refl))
    | inr (active, e) ↦ elim (Bool-cases (eqb active.generation g)) [
      | inl own ↦
          rw (e, own, deregister_connection)
            (inr (ap some ((eqb_iff active.generation g).0 own), refl))
      | inr other ↦ rw (e, other, deregister_connection) (inl (ground (arith, other), refl))
    ]
  ]

  -- The end of a connection removes the charger's entry exactly when that entry is its own. Then the
  -- charger has no entry; otherwise the registry, the state and the events stay as they are.
  pub leave_lem :
      (now : ℕ) (id : String) (g : ℕ) (s : DownstreamState Token Tx)
      → ((current id s ≡ some g) × (current id (leave now id g s) ≡ none))
        ⊎ ((current id s ≢ some g) × (leave now id g s ≡ s))
  unfolding leave
  leave_lem now id g s = elim (deregister_connection-cases id g s) [
    | inl (other, e) ↦ rw (e, leave) (inr (other, refl))
    | inr (own, e) ↦
        let gone : lookup id (remove id s.connections) ≡ none =
          lookup-remove id id s.connections ∙ rw (eq_refl id) refl in
        rw (e, leave) (inl (own, rw gone refl))
  ]

  deregister_connection-router :
      (id : String) (g : ℕ) (s : DownstreamState Token Tx)
      → (deregister_connection id g s).1.command_router ≡ s.command_router
  deregister_connection-router id g s = elim (deregister_connection-cases id g s) [
    | inl (other, e) ↦ rw e refl
    | inr (own, e) ↦ rw e refl
  ]

  deregister_connection-kept :
      (id : String) (g h : ℕ) (s : DownstreamState Token Tx)
      → current id s ≡ some h
      → h ≢ g
      → deregister_connection id g s ≡ (false, s)
  deregister_connection-kept id g h s now other = elim (deregister_connection-cases id g s) [
    | inl (different, e) ↦ e
    | inr (own, e) ↦ absurd (ground (arith, now, own, other))
  ]

  -- Between its two registrations a connection can be overtaken. Where a second connection of the same charger
  -- makes both of its own in between, under the generation after the first one's, then once both are made the
  -- second is the current one in the registry, but the router has the first one's channel. When the first ends,
  -- the second still is the current one, and the router has no channel for the charger.
  pub overtaken :
      (id : String) (t u : Token) (tx ux : Tx) (s : DownstreamState Token Tx)
      → s.generation < 2 ^ 64
      → let (g, s1) = register_connection id t s in
        let (h, s2) = register_connection id u s1 in
        let s3 = route id g tx (route id h ux s2) in
        let s4 = (deregister_connection id g (unroute id g s3)).1 in
        let second : ActiveConnection Token = record { generation = h; cancel = u } in
        let channel : Registration Tx = record { generation = g; tx = tx } in
        (h ≢ g)
        × (lookup id s3.connections ≡ some second)
        × (lookup id s3.command_router ≡ some channel)
        × (lookup id s4.connections ≡ some second)
        × (is_connected id s4.command_router ≡ false)
  unfolding register_connection route unroute is_connected register
  overtaken id t u tx ux s small =
      let (g, s1) = register_connection id t s in
      let (h, s2) = register_connection id u s1 in
      let s3 = route id g tx (route id h ux s2) in
      let second : ActiveConnection Token = record { generation = h; cancel = u } in
      let there : lookup id s2.connections ≡ some second =
        lookup-insert id id second s1.connections ∙ rw (eq_refl id) refl in
      let other = next_differs s.generation small in
      let kept =
        deregister_connection-kept id g h (unroute id g s3)
          (ap (option_map (λ a. a.generation)) there) other in
      (
        other,
        there,
        lookup-insert id id (record { generation = g; tx = tx }) (route id h ux s2).command_router
            ∙ rw (eq_refl id) refl,
        ap (λ r. lookup id r.1.connections) kept ∙ there,
        ap (λ r. is_some (lookup id r)) (deregister_connection-router id _ _)
            ∙ ap is_some (deregister-register id s.generation tx _),
      )
