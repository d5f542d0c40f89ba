-- ===== src/State/Events.antt =====
-- The state changes that `transition` broadcasts (src/state.rs).
use ocpp_proxy.Base.{
  ◌∙◌, ℕ, Bool, true, false, ◌≡◌, ◌≢◌, refl, sym, inl, inr, List, [], ◌∷◌, ◌++◌, retain,
  if◌then◌else◌, arith, Bool-cases, append-nil,
}
use ocpp_proxy.Models.{
  ConnectionId, upstream, downstream, mqtt, ConnectionState, disconnected, same_state, StateChange,
}
use ocpp_proxy.State.{ConnectionStateManager, transition, state_of, new}

abbrev same_connection : ConnectionId → ConnectionId → Bool
same_connection upstream upstream = true
same_connection downstream downstream = true
same_connection mqtt mqtt = true
same_connection _ _ = false

-- What a subscriber sees of one connection.
abbrev pub events_of : ConnectionId → List StateChange → List StateChange
events_of conn = retain λ e. same_connection e.connection conn

-- Events that lead from one state to another: each starts where the one before it ended, and
-- changes the state.
abbrev pub Chained : ConnectionState → List StateChange → ConnectionState → Type 0
Chained s [] t = s ≡ t
Chained s (e ∷ es) t = (e.previous ≡ s) × (e.current ≢ s) × Chained e.current es t

retain-append :
    (p : StateChange → Bool) (xs ys : List StateChange)
    → retain p (xs ++ ys) ≡ retain p xs ++ retain p ys
retain-append p [] ys = refl
retain-append p (x ∷ xs) ys = ground (arith, retain-append p xs ys)

Chained-concat :
    (s t : ConnectionState) (es : List StateChange) (e : StateChange)
    → Chained s es t
    → e.previous ≡ t
    → e.current ≢ t
    → Chained s (es ++ e ∷ []) e.current
Chained-concat s t [] e h p n = ground arith
Chained-concat s t (f ∷ es) e (a, b, h) p n = (a, b, Chained-concat f.current t es e h p n)

abbrev pub Tracked : ConnectionId → ConnectionStateManager → Type 0
Tracked conn m = Chained disconnected (events_of conn m.state_tx) (state_of conn m)

event : ℕ → ConnectionId → ConnectionState → ConnectionState → StateChange
event now conn old s = record { connection = conn; previous = old; current = s; timestamp = now }

same_state-false : (a b : ConnectionState) → same_state a b ≡ false → b ≢ a
same_state-false a b h = ground arith

-- one more event, for this connection or another
append-Chained :
    (conn moved : ConnectionId) (old s t : ConnectionState) (now : ℕ) (es : List StateChange)
    → s ≢ old
    → Chained disconnected (events_of conn es) t
    → (same_connection moved conn ≡ true → t ≡ old)
    → Chained disconnected
        (events_of conn (es ++ event now moved old s ∷ []))
        (if same_connection moved conn then s else t)
unfolding event
append-Chained conn moved old s t now es n h same = elim (Bool-cases (same_connection moved conn)) [
  | inl e ↦
      rw (retain-append _ es (event now moved old s ∷ []), event, e)
        (Chained-concat disconnected t (events_of conn es) (event now moved old s) h (sym (same e))
          (λ p. n (p ∙ same e)))
  | inr e ↦
      rw (retain-append _ es (event now moved old s ∷ []), event, e)
        (rw (append-nil (events_of conn es)) h)
]

same_connection_state :
    (moved conn : ConnectionId) (m : ConnectionStateManager)
    → same_connection moved conn ≡ true
    → state_of conn m ≡ state_of moved m
same_connection_state upstream conn m e = ground arith
same_connection_state _ conn m e = ground arith

state_of-transition :
    (now : ℕ) (moved conn : ConnectionId) (s : ConnectionState) (m : ConnectionStateManager)
    → state_of conn (transition now moved s m)
      ≡ (if same_connection moved conn then s else state_of conn m)
unfolding transition
state_of-transition now upstream upstream s m = ground arith
state_of-transition now upstream conn s m = ground arith
state_of-transition now downstream conn s m = ground arith
state_of-transition now mqtt conn s m = ground arith

state_tx-transition :
    (now : ℕ) (moved : ConnectionId) (s : ConnectionState) (m : ConnectionStateManager)
    → same_state (state_of moved m) s ≡ false
    → (transition now moved s m).state_tx ≡ m.state_tx ++ event now moved (state_of moved m) s ∷ []
unfolding transition event
state_tx-transition now upstream s m e = ground arith
state_tx-transition now _ s m e = ground arith

transition_same :
    (now : ℕ) (moved : ConnectionId) (s : ConnectionState) (m : ConnectionStateManager)
    → same_state (state_of moved m) s ≡ true
    → transition now moved s m ≡ m
unfolding transition
transition_same now moved s m e = rw e

transition-Tracked :
    (now : ℕ) (moved conn : ConnectionId) (s : ConnectionState) (m : ConnectionStateManager)
    → Tracked conn m
    → Tracked conn (transition now moved s m)
transition-Tracked now moved conn s m h = elim (Bool-cases (same_state (state_of moved m) s)) [
  | inl e ↦ rw (transition_same now moved s m e) h
  | inr e ↦
      rw (state_of-transition now moved conn s m, state_tx-transition now moved s m e)
        (append-Chained conn moved (state_of moved m) s (state_of conn m) now m.state_tx
          (same_state-false (state_of moved m) s e) h (same_connection_state moved conn m))
]

-- Calls of `transition`, in their order, each with its time.
pub transitions :
    List (ℕ × ConnectionId × ConnectionState) → ConnectionStateManager → ConnectionStateManager
transitions [] m = m
transitions ((now, moved, s) ∷ rest) m = transitions rest (transition now moved s m)

transitions-keep :
    (calls : List (ℕ × ConnectionId × ConnectionState)) (conn : ConnectionId)
    (m : ConnectionStateManager)
    → Tracked conn m
    → Tracked conn (transitions calls m)
unfolding transitions
transitions-keep [] conn m h = h
transitions-keep ((now, moved, s) ∷ rest) conn m h =
    transitions-keep rest conn (transition now moved s m) (transition-Tracked now moved conn s m h)

new-Tracked : (conn : ConnectionId) → Tracked conn new
unfolding new
new-Tracked upstream = refl
new-Tracked _ = refl

-- After any calls of `transition` on a new manager, a subscriber who has seen all events knows the
-- state of each connection: the events of that connection lead from `disconnected` to its state,
-- each from the state that the one before left, and none of them repeats a state.
pub transitions-Tracked :
    (calls : List (ℕ × ConnectionId × ConnectionState)) (conn : ConnectionId)
    → Tracked conn (transitions calls new)
transitions-Tracked calls conn = transitions-keep calls conn new (new-Tracked conn)
