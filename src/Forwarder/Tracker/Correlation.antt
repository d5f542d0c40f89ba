-- ===== src/Forwarder/Tracker/Correlation.antt =====
-- Which call a response is matched with, and what expiry keeps (src/forwarder.rs).
use ocpp_proxy.Base.{
  ℕ, ◌+◌, ◌<◌, String, false, Option, none, some, List, [], ◌∷◌, ◌≡◌, refl, arith, ◌==◌, eq_refl,
  lookup, lookup-insert, lookup-remove, length, retain, All, leb,
}
use ocpp_proxy.Models.{Direction}
use ocpp_proxy.Forwarder.Tracker.{
  PendingCall, CallTracker, track_call, resolve, cleanup_expired, is_young,
}

-- What passes between a call and its response.
pub data Traffic : Type 0 where
  called : (id action : String) → Direction → ℕ → Traffic
  answered : (id : String) → Traffic

abbrev pub id_of : Traffic → String
id_of (called id action d now) = id
id_of (answered id) = id

pub pass : List Traffic → CallTracker → CallTracker
pass [] t = t
pass (called id action d now ∷ rest) t = pass rest (track_call id action d now t)
pass (answered id ∷ rest) t = pass rest (resolve id t).1

pass-lookup :
    (ts : List Traffic) (id : String) (t : CallTracker)
    → All (λ x. (id_of x == id) ≡ false) ts
    → lookup id (pass ts t).pending_calls ≡ lookup id t.pending_calls
unfolding pass track_call resolve
pass-lookup [] id t h = refl
pass-lookup (called j action d now ∷ ts) id t (n, h) = ground (
  arith,
  pass-lookup ts id (track_call j action d now t) h,
  lookup-insert j id (record { action = action; direction = d; sent_at = now }) t.pending_calls,
)
pass-lookup (answered j ∷ ts) id t (n, h) =
    ground (arith, pass-lookup ts id (resolve j t).1 h, lookup-remove j id t.pending_calls)

pass-track_call :
    (id action : String) (d : Direction) (now : ℕ) (ts : List Traffic) (t : CallTracker)
    → All (λ x. (id_of x == id) ≡ false) ts
    → lookup id (pass ts (track_call id action d now t)).pending_calls
      ≡ some (record { action = action; direction = d; sent_at = now })
unfolding track_call
pass-track_call id action d now ts t h = ground (
  arith,
  pass-lookup ts id (track_call id action d now t) h,
  lookup-insert id id (record { action = action; direction = d; sent_at = now }) t.pending_calls,
  eq_refl id,
)

-- A response is given the action of the call that was tracked under its id, whatever other calls and
-- responses passed in between; a second response with that id is given none.
pub resolve-track_call :
    (id action : String) (d : Direction) (now : ℕ) (ts : List Traffic) (t : CallTracker)
    → All (λ x. (id_of x == id) ≡ false) ts
    → let t' = pass ts (track_call id action d now t) in
      ((resolve id t').0 ≡ some action) × ((resolve id (resolve id t').1).0 ≡ none)
unfolding resolve
resolve-track_call id action d now ts t h =
    let t' = pass ts (track_call id action d now t) in
    ground (
      arith,
      pass-track_call id action d now ts t h,
      lookup-remove id id t'.pending_calls,
      eq_refl id,
    )

young-All :
    (now max_age : ℕ) (es : List (String × PendingCall))
    → All (λ e. now < e.1.sent_at + max_age) (retain (is_young now max_age) es)
young-All now max_age [] = tt
young-All now max_age (e ∷ es) = ground (arith, young-All now max_age es)

young_split :
    (now max_age : ℕ) (es : List (String × PendingCall))
    → length (retain (is_young now max_age) es)
        + length (retain (λ e. leb (e.1.sent_at + max_age) now) es)
      ≡ length es
young_split now max_age [] = omega arith
young_split now max_age (e ∷ es) = ground (arith, young_split now max_age es)

-- Where `max_age` is a duration that `chrono` can hold, cleaning up keeps only entries younger than
-- it, and the number it reports is both that of the entries that went and that of the entries that
-- had reached it.
pub cleanup_expired_lem :
    (from_std : ℕ → Option ℕ) (now max_age : ℕ) (t : CallTracker)
    → from_std t.max_age ≡ some max_age
    → let r = cleanup_expired from_std now t in
      All (λ e. now < e.1.sent_at + max_age) r.1.pending_calls
      × (r.0 + length r.1.pending_calls ≡ length t.pending_calls)
      × (r.0 ≡ length (retain (λ e. leb (e.1.sent_at + max_age) now) t.pending_calls))
unfolding cleanup_expired
cleanup_expired_lem from_std now max_age t e = rw e (
  young-All now max_age t.pending_calls,
  omega (arith, young_split now max_age t.pending_calls),
  omega (arith, young_split now max_age t.pending_calls),
)
