-- ===== src/Forwarder/Tracker.antt =====
-- `CallTracker` of src/forwarder.rs.
pub mod Correlation
use ocpp_proxy.Base.{
  ℕ, ◌+◌, ◌-◌, String, Bool, ◌&&◌, Option, none, some, List, [], ltb, length, retain, any, lookup,
  insert, remove, unwrap_or, option_map,
}
use ocpp_proxy.Models.{Direction, same_direction}

pub record PendingCall : Type 0 where
  pub action : String
  pub direction : Direction
  pub sent_at : ℕ

pub record CallTracker : Type 0 where
  pub pending_calls : List (String × PendingCall)
  pub max_age : ℕ

-- `CallTracker::new`
unfoldable pub new : ℕ → CallTracker
new max_age = record { pending_calls = []; max_age = max_age }

-- `track_call`, at the time `now`
unfoldable pub track_call : String → String → Direction → ℕ → CallTracker → CallTracker
track_call id action direction now t =
    let call : PendingCall = record { action = action; direction = direction; sent_at = now } in
    record t { pending_calls = insert id call t.pending_calls }

-- `resolve`
unfoldable pub resolve : String → CallTracker → Option String × CallTracker
resolve id t = (
  option_map (λ (c : PendingCall). c.action) (lookup id t.pending_calls),
  record t { pending_calls = remove id t.pending_calls },
)

abbrev pub is_young : ℕ → ℕ → String × PendingCall → Bool
is_young now max_age entry = ltb now (entry.1.sent_at + max_age)

-- `cleanup_expired`: how many entries go, and the tracker
unfoldable pub cleanup_expired : (ℕ → Option ℕ) → ℕ → CallTracker → ℕ × CallTracker
cleanup_expired from_std now t =
    let max_age = unwrap_or (from_std t.max_age) 300_000_000_000 in
    let kept = retain (is_young now max_age) t.pending_calls in
    (length t.pending_calls - length kept, record t { pending_calls = kept })

-- `pending_count`
abbrev pub pending_count : CallTracker → ℕ
pending_count t = length t.pending_calls

-- `has_recent_pending_in`
unfoldable pub has_recent_pending_in : (ℕ → Option ℕ) → ℕ → Direction → ℕ → CallTracker → Bool
has_recent_pending_in from_std now direction max_age t =
    let age = unwrap_or (from_std max_age) 10_000_000_000 in
    any
      (λ (entry : String × PendingCall).
        same_direction entry.1.direction direction && is_young now age entry)
      t.pending_calls
