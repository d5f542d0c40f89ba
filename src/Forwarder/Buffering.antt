-- ===== src/Forwarder/Buffering.antt =====
-- The buffers of the forwarder, and the conditions under which it forwards (src/forwarder.rs).
use ocpp_proxy.Base.{
  ℕ, ◌+◌, ◌≤◌, max, String, Option, some, List, [], ◌∷◌, ◌≡◌, refl, arith, length, leb, ltb, All,
  retain, length-retain, push_bounded_bound,
}
use ocpp_proxy.Models.{OcppFrame}
use ocpp_proxy.Forwarder.{
  MessageForwarder, buffer_upstream, buffer_downstream, discard_downstream_buffer,
  evict_expired_messages, with_charge_point_id,
}

-- Neither buffer holds more than the configured number of messages (or one, where that is 0).
abbrev pub IsBounded : MessageForwarder → Type 0
IsBounded f =
    (length f.upstream_buffer ≤ max f.max_buffer_size 1)
    × (length f.downstream_buffer ≤ max f.max_buffer_size 1)

-- The operations on the buffers.
pub data Operation : Type 0 where
  up down : OcppFrame → Operation
  discarded : Operation
  aged : (ℕ → Option ℕ) → ℕ → Operation

pub operate : Operation → MessageForwarder → MessageForwarder
operate (up frame) f = buffer_upstream frame f
operate (down frame) f = buffer_downstream frame f
operate discarded f = discard_downstream_buffer f
operate (aged from_std now) f = (evict_expired_messages from_std now f).1

operate-IsBounded : (o : Operation) (f : MessageForwarder) → IsBounded f → IsBounded (operate o f)
unfolding operate buffer_upstream buffer_downstream discard_downstream_buffer evict_expired_messages
operate-IsBounded (up frame) f h =
    (push_bounded_bound f.max_buffer_size frame f.upstream_buffer h.0, h.1)
operate-IsBounded (down frame) f h =
    (h.0, push_bounded_bound f.max_buffer_size frame f.downstream_buffer h.1)
operate-IsBounded discarded f h = (h.0, omega arith)
operate-IsBounded (aged from_std now) f h =
    (omega (arith, length-retain {0}, h.0), omega (arith, length-retain {0}, h.1))

pub operations : List Operation → MessageForwarder → MessageForwarder
operations [] f = f
operations (o ∷ os) f = operations os (operate o f)

operations_keep :
    (os : List Operation) (f : MessageForwarder) → IsBounded f → IsBounded (operations os f)
unfolding operations
operations_keep [] f h = h
operations_keep (o ∷ os) f h = operations_keep os (operate o f) (operate-IsBounded o f h)

operations-max_buffer_size :
    (os : List Operation) (f : MessageForwarder)
    → (operations os f).max_buffer_size ≡ f.max_buffer_size
unfolding operations operate buffer_upstream buffer_downstream discard_downstream_buffer
    evict_expired_messages
operations-max_buffer_size [] f = refl
operations-max_buffer_size (up frame ∷ os) f = operations-max_buffer_size os _
operations-max_buffer_size (down frame ∷ os) f = operations-max_buffer_size os _
operations-max_buffer_size (discarded ∷ os) f = operations-max_buffer_size os _
operations-max_buffer_size (aged from_std now ∷ os) f = operations-max_buffer_size os _

-- Whatever is buffered, discarded or evicted after a forwarder is made for `size` messages, neither of its
-- buffers holds more than that (or one, where that is 0).
pub operations-IsBounded :
    (size duration age : ℕ) (id : String) (os : List Operation)
    → let f = operations os (with_charge_point_id size duration age id) in
      IsBounded f
      × (length f.upstream_buffer ≤ max size 1)
      × (length f.downstream_buffer ≤ max size 1)
unfolding with_charge_point_id
operations-IsBounded size duration age id os =
    let begun = with_charge_point_id size duration age id in
    let bounded = operations_keep os begun (omega arith, omega arith) in
    let same = operations-max_buffer_size os begun in
    (bounded, omega (arith, bounded.0, same), omega (arith, bounded.1, same))

old_split :
    (now age : ℕ) (frames : List OcppFrame)
    → length (retain (λ f. leb now (f.received_at + age)) frames)
        + length (retain (λ f. ltb (f.received_at + age) now) frames)
      ≡ length frames
old_split now age [] = omega arith
old_split now age (f ∷ frames) = ground (arith, old_split now age frames)

young-All :
    (now age : ℕ) (frames : List OcppFrame)
    → All (λ f. now ≤ f.received_at + age) (retain (λ f. leb now (f.received_at + age)) frames)
young-All now age [] = tt
young-All now age (f ∷ frames) = ground (arith, young-All now age frames)

-- How many messages of both buffers are older than an age.
abbrev pub too_old : ℕ → ℕ → MessageForwarder → ℕ
too_old now age f =
    length (retain (λ m. ltb (m.received_at + age) now) f.upstream_buffer)
    + length (retain (λ m. ltb (m.received_at + age) now) f.downstream_buffer)

-- Where the configured duration is one that `chrono` can hold, an eviction leaves no message older
-- than it, reports as many as were older, and removes just as many.
pub evict_expired_messages_lem :
    (from_std : ℕ → Option ℕ) (now age : ℕ) (f : MessageForwarder)
    → from_std f.max_buffer_duration ≡ some age
    → let r = evict_expired_messages from_std now f in
      All (λ m. now ≤ m.received_at + age) r.1.upstream_buffer
      × All (λ m. now ≤ m.received_at + age) r.1.downstream_buffer
      × (r.0 ≡ too_old now age f)
      × (r.0 + length r.1.upstream_buffer + length r.1.downstream_buffer
          ≡ length f.upstream_buffer + length f.downstream_buffer)
unfolding evict_expired_messages
evict_expired_messages_lem from_std now age f e = rw e (
  young-All now age f.upstream_buffer,
  young-All now age f.downstream_buffer,
  omega (arith, old_split now age f.upstream_buffer, old_split now age f.downstream_buffer),
  omega (arith, old_split now age f.upstream_buffer, old_split now age f.downstream_buffer),
)
