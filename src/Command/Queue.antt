-- ===== src/Command/Queue.antt =====
-- `LocalCallQueue` of src/command.rs: the calls of the proxy to one charger.
pub mod Laws
pub mod Answering
use ocpp_proxy.Base.{
  ℕ, ◌+◌, ◌-◌, ◌%◌, ◌^◌, max, String, Bool, true, false, not, ◌&&◌, ◌==◌, Option, none, some, List,
  [], ◌∷◌, ◌++◌, if◌then◌else◌, leb, length, retain, is_empty, is_some, unwrap_or,
}
use ocpp_proxy.Base.Text.{format, decimal}
use ocpp_proxy.Command.{CommandRequest, PreparedCall, InFlight, is_limit_command}

pub record LocalCallQueue : Type 0 where
  pub queued : List CommandRequest
  pub in_flight : Option InFlight
  pub timeout : ℕ
  pub capacity : ℕ
  pub sequence : ℕ

-- `LocalCallQueue::new`
unfoldable pub new : ℕ → ℕ → LocalCallQueue
new timeout capacity = record {
  queued = [];
  in_flight = none;
  timeout = timeout;
  capacity = max capacity 1;
  sequence = 0;
}

abbrev pub is_limit : CommandRequest → Bool
is_limit r = is_limit_command r.command

-- what a full queue gives up, and what it keeps
abbrev pub oldest : ℕ → List CommandRequest → List CommandRequest
oldest capacity [] = []
oldest capacity (r ∷ rs) = if leb capacity (length (r ∷ rs)) then r ∷ [] else []

abbrev pub without_oldest : ℕ → List CommandRequest → List CommandRequest
without_oldest capacity [] = []
without_oldest capacity (r ∷ rs) = if leb capacity (length (r ∷ rs)) then rs else r ∷ rs

-- `push`: the requests that are displaced, and the queue
unfoldable pub push : CommandRequest → LocalCallQueue → List CommandRequest × LocalCallQueue
push request q =
    let superseded = if is_limit request then retain is_limit q.queued else [] in
    let kept = if is_limit request then retain (λ r. not (is_limit r)) q.queued else q.queued in
    (
      superseded ++ oldest q.capacity kept,
      record q { queued = without_oldest q.capacity kept ++ request ∷ [] },
    )

-- `has_in_flight`, `is_empty`
abbrev pub has_in_flight : LocalCallQueue → Bool
has_in_flight q = is_some q.in_flight

abbrev pub is_idle : LocalCallQueue → Bool
is_idle q = is_empty q.queued && not (is_some q.in_flight)

-- `is_ours`
abbrev pub is_ours : String → LocalCallQueue → Bool
is_ours id q = elim q.in_flight [ none ↦ false | some f ↦ f.prepared.unique_id == id ]

-- `next_unique_id`, at the clock `millis`
unfoldable pub next_unique_id : ℕ → LocalCallQueue → String × LocalCallQueue
next_unique_id millis q =
    let sequence = (q.sequence + 1) % 2 ^ 64 in
    (
      format ("proxy-" ∷ decimal millis ∷ "-" ∷ decimal sequence ∷ []),
      record q { sequence = sequence },
    )

pop_front : LocalCallQueue → List CommandRequest → Option CommandRequest × LocalCallQueue
pop_front q [] = (none, q)
pop_front q (r ∷ rs) = (some r, record q { queued = rs })

-- `pop_next`
unfoldable pub pop_next : LocalCallQueue → Option CommandRequest × LocalCallQueue
unfolding pop_front
pop_next q = if has_in_flight q then (none, q) else pop_front q q.queued

-- `set_in_flight`, at the instant `now`
unfoldable pub set_in_flight : ℕ → CommandRequest → PreparedCall → LocalCallQueue → LocalCallQueue
set_in_flight now request prepared q = record q {
  in_flight = some (record { request = request; prepared = prepared; sent_at = now });
}

-- `take_response`
unfoldable pub take_response : String → LocalCallQueue → Option InFlight × LocalCallQueue
take_response id q =
    if is_ours id q then (q.in_flight, record q { in_flight = none }) else (none, q)

-- Thirty seconds, in the clock's ticks (nanoseconds).
abbrev pub thirty_seconds : ℕ
thirty_seconds = 30_000_000_000

-- whether the call in flight has waited for the whole timeout at the instant `now`
abbrev pub is_overdue : ℕ → LocalCallQueue → Bool
is_overdue now q = elim q.in_flight [ none ↦ false | some f ↦ leb q.timeout (now - f.sent_at) ]

-- `expire`, at the time `now` and the instant `instant`; `from_std` is `chrono::Duration::from_std`
unfoldable pub expire :
    (ℕ → Option ℕ) → ℕ → ℕ → LocalCallQueue → List CommandRequest × Option InFlight × LocalCallQueue
expire from_std now instant q =
    let max_age = unwrap_or (from_std q.timeout) thirty_seconds in
    let is_old = λ (r : CommandRequest). leb (r.issued_at + max_age) now in
    (
      retain is_old q.queued,
      (if is_overdue instant q then q.in_flight else none),
      record q {
        queued = retain (λ r. not (is_old r)) q.queued;
        in_flight = if is_overdue instant q then none else q.in_flight;
      },
    )

-- `drain`
unfoldable pub drain : LocalCallQueue → List CommandRequest × Option InFlight × LocalCallQueue
drain q = (q.queued, q.in_flight, record q { queued = []; in_flight = none })
