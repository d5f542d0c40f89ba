-- ===== src/Command/Queue/Laws.antt =====
-- The invariant of the queue of local calls, and what becomes of each request (src/command.rs).
use ocpp_proxy.Base.{
  ℕ, ◌+◌, ◌≤◌, max, ◌∙◌, String, Bool, false, not, Option, List, [], ◌∷◌, ◌++◌, ◌≡◌, refl, inl, inr,
  arith, leb, length, retain, Bool-cases, length-concat, length-retain, unwrap_or,
}
use ocpp_proxy.Command.{CommandRequest, PreparedCall}
use ocpp_proxy.Command.Queue.{
  LocalCallQueue, is_limit, oldest, without_oldest, push, pop_next, take_response, expire, drain,
  new, set_in_flight, next_unique_id, thirty_seconds,
}

module _ (p : CommandRequest → Bool) where
  -- how many requests of a list a test selects
  abbrev pub number : List CommandRequest → ℕ
  number rs = length (retain p rs)

  pub number-append : (xs ys : List CommandRequest) → number (xs ++ ys) ≡ number xs + number ys
  number-append [] ys = omega arith
  number-append (x ∷ xs) ys = ground (arith, number-append xs ys)

  -- A test splits what another selects.
  pub number_split :
      (q : CommandRequest → Bool) (xs : List CommandRequest)
      → number (retain q xs) + number (retain (λ r. not (q r)) xs) ≡ number xs
  number_split q [] = omega arith
  number_split q (x ∷ xs) = ground (arith, number_split q xs)

  number-oldest :
      (capacity : ℕ) (xs : List CommandRequest)
      → number (oldest capacity xs) + number (without_oldest capacity xs) ≡ number xs
  number-oldest capacity [] = omega arith
  number-oldest capacity (x ∷ xs) = ground arith

  number_kept :
      (r : CommandRequest) (capacity : ℕ) (superseded kept : List CommandRequest)
      → number (superseded ++ oldest capacity kept)
          + number (without_oldest capacity kept ++ r ∷ [])
        ≡ number superseded + number kept + number (r ∷ [])
  number_kept r capacity superseded kept = omega (
    arith,
    number-append superseded (oldest capacity kept),
    number-append (without_oldest capacity kept) (r ∷ []),
    number-oldest capacity kept,
  )

  pub number-retain :
      (keep : CommandRequest → Bool) (xs : List CommandRequest)
      → number (retain keep xs) ≤ number xs
  number-retain keep xs = omega (arith, number_split keep xs)

  -- A pushed request is queued and no other is lost: of the requests that any test selects, those
  -- displaced and those queued afterwards are as many as those queued before and the new one.
  pub push_conserves :
      (r : CommandRequest) (q : LocalCallQueue)
      → number (push r q).0 + number (push r q).1.queued ≡ number q.queued + number (r ∷ [])
  unfolding push
  push_conserves r q = elim (Bool-cases (is_limit r)) [
    | inl e ↦ rw e (
        omega (
          arith,
          number_kept r q.capacity (retain is_limit q.queued)
              (retain (λ x. not (is_limit x)) q.queued),
          number_split is_limit q.queued,
        ))
    | inr e ↦ rw e (omega (arith, number_kept r q.capacity [] q.queued))
  ]

  -- Whatever the clock, an expiry reports each queued request or keeps it.
  pub expire_conserves :
      (from_std : ℕ → Option ℕ) (now instant : ℕ) (q : LocalCallQueue)
      → number (expire from_std now instant q).0 + number (expire from_std now instant q).2.queued
        ≡ number q.queued
  unfolding expire
  expire_conserves from_std now instant q = number_split _ q.queued

-- At most `capacity` requests wait, for a capacity of one or more, and at most one of them is a
-- limit command.
pub record IsValid (q : LocalCallQueue) : Type 0 where
  pub capacity_positive : 1 ≤ q.capacity
  pub bounded : length q.queued ≤ q.capacity
  pub one_limit : number is_limit q.queued ≤ 1

new-IsValid : (timeout capacity : ℕ) → IsValid (new timeout capacity)
unfolding new
new-IsValid timeout capacity = omega arith

-- the requests left when the limit commands are taken out
number_others : (xs : List CommandRequest) → number is_limit (retain (λ r. not (is_limit r)) xs) ≡ 0
number_others [] = refl
number_others (x ∷ xs) = ground (arith, number_others xs)

length-without_oldest :
    (capacity : ℕ) (xs : List CommandRequest)
    → 1 ≤ capacity
    → length xs ≤ capacity
    → length (without_oldest capacity xs) + 1 ≤ capacity
length-without_oldest capacity [] h k = omega arith
length-without_oldest capacity (x ∷ xs) h k = ground arith

number-without_oldest :
    (p : CommandRequest → Bool) (capacity : ℕ) (xs : List CommandRequest)
    → number p (without_oldest capacity xs) ≤ number p xs
number-without_oldest p capacity xs = omega (arith, number-oldest p capacity xs)

-- the invariant for what `push` leaves of the requests it keeps
kept-IsValid :
    (r : CommandRequest) (q : LocalCallQueue) (kept : List CommandRequest)
    → 1 ≤ q.capacity
    → length kept ≤ q.capacity
    → number is_limit kept + number is_limit (r ∷ []) ≤ 1
    → IsValid (record q { queued = without_oldest q.capacity kept ++ r ∷ [] })
kept-IsValid r q kept h k n = record {
  capacity_positive = h;
  bounded = omega (
    arith,
    length-concat (without_oldest q.capacity kept) r,
    length-without_oldest q.capacity kept h k,
  );
  one_limit = omega (
    arith,
    number-append is_limit (without_oldest q.capacity kept) (r ∷ []),
    number-without_oldest is_limit q.capacity kept,
  );
}

number_one : (r : CommandRequest) → number is_limit (r ∷ []) ≤ 1
number_one r = ground arith

number_one-false : (r : CommandRequest) → is_limit r ≡ false → number is_limit (r ∷ []) ≡ 0
number_one-false r e = rw e

pub push-IsValid : (r : CommandRequest) (q : LocalCallQueue) → IsValid q → IsValid (push r q).1
unfolding push
push-IsValid r q v = elim (Bool-cases (is_limit r)) [
  | inl e ↦ rw e (
      kept-IsValid r q (retain (λ x. not (is_limit x)) q.queued) v.capacity_positive
        (omega (arith, length-retain (λ x. not (is_limit x)) q.queued, v.bounded))
        (omega (arith, number_others q.queued, number_one r)))
  | inr e ↦ rw e (
      kept-IsValid r q q.queued v.capacity_positive v.bounded
        (omega (arith, number_one-false r e, v.one_limit)))
]

pop_next-IsValid : (q : LocalCallQueue) → IsValid q → IsValid (pop_next q).1
unfolding pop_next
pop_next-IsValid q v = go q.queued refl
  where
    go : (rs : List CommandRequest) → q.queued ≡ rs → IsValid (pop_next q).1
    go [] e = ground arith
    go (r ∷ rs) e = ground arith

take_response-IsValid :
    (id : String) (q : LocalCallQueue) → IsValid q → IsValid (take_response id q).1
unfolding take_response
take_response-IsValid id q v = ground arith

expire-IsValid :
    (from_std : ℕ → Option ℕ) (now instant : ℕ) (q : LocalCallQueue)
    → IsValid q
    → IsValid (expire from_std now instant q).2
unfolding expire
expire-IsValid from_std now instant q v =
    let max_age = unwrap_or (from_std q.timeout) thirty_seconds in
    let is_young = λ (r : CommandRequest). not (leb (r.issued_at + max_age) now) in
    record {
      capacity_positive = v.capacity_positive;
      bounded = omega (arith, length-retain is_young q.queued, v.bounded);
      one_limit = omega (arith, number-retain is_limit is_young q.queued, v.one_limit);
    }

-- The operations of a session on its queue.
pub data Operation : Type 0 where
  pushed : CommandRequest → Operation
  popped : Operation
  numbered : ℕ → Operation
  sent : ℕ → CommandRequest → PreparedCall → Operation
  answered : String → Operation
  expired : (ℕ → Option ℕ) → ℕ → ℕ → Operation
  drained : Operation

pub operate : Operation → LocalCallQueue → LocalCallQueue
operate (pushed r) q = (push r q).1
operate popped q = (pop_next q).1
operate (numbered millis) q = (next_unique_id millis q).1
operate (sent now r p) q = set_in_flight now r p q
operate (answered id) q = (take_response id q).1
operate (expired from_std now instant) q = (expire from_std now instant q).2
operate drained q = (drain q).2

operate-IsValid : (o : Operation) (q : LocalCallQueue) → IsValid q → IsValid (operate o q)
unfolding operate next_unique_id set_in_flight drain
operate-IsValid (pushed r) q v = push-IsValid r q v
operate-IsValid popped q v = pop_next-IsValid q v
operate-IsValid (numbered millis) q v = ground arith
operate-IsValid (sent now r p) q v = ground arith
operate-IsValid (answered id) q v = take_response-IsValid id q v
operate-IsValid (expired from_std now instant) q v = expire-IsValid from_std now instant q v
operate-IsValid drained q v = ground arith

pub operations : List Operation → LocalCallQueue → LocalCallQueue
operations [] q = q
operations (o ∷ os) q = operations os (operate o q)

operations_keep : (os : List Operation) (q : LocalCallQueue) → IsValid q → IsValid (operations os q)
unfolding operations
operations_keep [] q v = v
operations_keep (o ∷ os) q v = operations_keep os (operate o q) (operate-IsValid o q v)

operate-capacity : (o : Operation) (q : LocalCallQueue) → (operate o q).capacity ≡ q.capacity
unfolding operate push pop_next take_response expire drain next_unique_id set_in_flight
operate-capacity (pushed r) q = refl
operate-capacity popped q = go q.queued refl
  where
    go : (rs : List CommandRequest) → q.queued ≡ rs → (pop_next q).1.capacity ≡ q.capacity
    go [] e = ground arith
    go (r ∷ rs) e = ground arith
operate-capacity (numbered millis) q = refl
operate-capacity (sent now r p) q = refl
operate-capacity (answered id) q = ground arith
operate-capacity (expired from_std now instant) q = refl
operate-capacity drained q = refl

operations-capacity :
    (os : List Operation) (q : LocalCallQueue) → (operations os q).capacity ≡ q.capacity
unfolding operations
operations-capacity [] q = refl
operations-capacity (o ∷ os) q = operations-capacity os (operate o q) ∙ operate-capacity o q

-- After any operations on a queue that is made for `capacity` requests, at most that many wait (or one, for a
-- capacity of 0), and at most one of them is a limit command.
pub operations-IsValid :
    (timeout capacity : ℕ) (os : List Operation)
    → let q = operations os (new timeout capacity) in
      IsValid q × (length q.queued ≤ max capacity 1) × (number is_limit q.queued ≤ 1)
unfolding new
operations-IsValid timeout capacity os =
    let begun = new timeout capacity in
    let valid = operations_keep os begun (new-IsValid timeout capacity) in
    (valid, omega (arith, valid.bounded, operations-capacity os begun), valid.one_limit)
