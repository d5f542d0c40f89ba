-- ===== src/Command/Queue/Answering.antt =====
-- Which answers of the charger the queue claims, and that one call is in flight at a time
-- (src/command.rs).
use ocpp_proxy.Base.{◌⊎◌, String, Option, none, some, ◌≡◌, ◌≢◌, ◌↔◌, refl, arith, eq_iff}
use ocpp_proxy.Command.{InFlight}
use ocpp_proxy.Command.Queue.{LocalCallQueue, take_response}

-- A response is claimed exactly when a call is in flight under its id; the claim yields that call,
-- clears it and leaves the waiting requests, so the same response is not claimed a second time. A
-- response that is not claimed changes nothing.
pub take_response_lem :
    (id : String) (q : LocalCallQueue)
    → ((f : InFlight)
        → ((take_response id q).0 ≡ some f)
          ↔ ((q.in_flight ≡ some f) × (f.prepared.unique_id ≡ id)))
      × (((take_response id q).0 ≢ none) ⊎ ((take_response id q).1 ≡ q))
      × ((take_response id (take_response id q).1).0 ≡ none)
      × ((take_response id q).1.queued ≡ q.queued)
unfolding take_response
take_response_lem id q = go q.in_flight refl
  where
    go :
        (o : Option InFlight)
        → q.in_flight ≡ o
        → ((f : InFlight)
            → ((take_response id q).0 ≡ some f)
              ↔ ((q.in_flight ≡ some f) × (f.prepared.unique_id ≡ id)))
          × (((take_response id q).0 ≢ none) ⊎ ((take_response id q).1 ≡ q))
          × ((take_response id (take_response id q).1).0 ≡ none)
          × ((take_response id q).1.queued ≡ q.queued)
    go none e = (λ f. ground arith, ground arith, ground arith, ground arith)
    go (some f) e = (
      λ g. ground (arith, eq_iff f.prepared.unique_id id),
      ground arith,
      ground arith,
      ground arith,
    )
