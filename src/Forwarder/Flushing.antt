-- ===== src/Forwarder/Flushing.antt =====
-- Replaying a buffer to a sink (src/forwarder.rs).
use ocpp_proxy.Base.{
  ◌≤◌, ◌≢◌, ◌↔◌, ℕ, String, none, some, List, [], ◌∷◌, ◌++◌, map, ◌≡◌, refl, ap, ◌∙◌, arith, Result,
  ok, err, length, append_assoc, Result-cases, Option-cases, inl, inr,
}
use ocpp_proxy.Errors.{ProxyError}
use ocpp_proxy.Models.{OcppFrame}
use ocpp_proxy.Forwarder.{MessageForwarder, flush, flush_upstream}

-- What a sink does: a send that succeeds adds the text to what the destination was given, and one
-- that fails adds nothing.
pub record Sink (W : Type 0) : Type 0 where
  pub send_raw : String → W → Result ProxyError (Unit {0}) × W
  pub given : W → List String
  pub given-ok :
      (raw : String) (w : W)
      → (send_raw raw w).0 ≡ ok tt
      → given (send_raw raw w).1 ≡ given w ++ raw ∷ []
  pub given-err :
      (raw : String) (w : W) (e : ProxyError)
      → (send_raw raw w).0 ≡ err e
      → given (send_raw raw w).1 ≡ given w

abbrev pub raws : List OcppFrame → List String
raws = map λ f. f.raw

module _ {W : Type 0} (s : Sink W) where
  open s use {send_raw, given, given-ok, given-err}

  flush-order :
      (frames : List OcppFrame) (w : W)
      → given (flush send_raw frames w).2 ++ raws (flush send_raw frames w).1
        ≡ given w ++ raws frames
  unfolding flush
  flush-order [] w = refl
  flush-order (frame ∷ rest) w = elim (Result-cases (send_raw frame.raw w).0) [
    | inl (u, e) ↦
        rw (e, flush)
          (flush-order rest (send_raw frame.raw w).1
            ∙ ap (λ gs. gs ++ raws rest) (given-ok frame.raw w e)
            ∙ append_assoc (given w) (frame.raw ∷ []) (raws rest))
    | inr (e, p) ↦ rw (p, flush) (ap (λ gs. gs ++ raws (frame ∷ rest)) (given-err frame.raw w e p))
  ]

  flush-empty :
      (frames : List OcppFrame) (w : W)
      → (flush send_raw frames w).0 ≡ none
      → (flush send_raw frames w).1 ≡ []
  unfolding flush
  flush-empty [] w h = refl
  flush-empty (frame ∷ rest) w h = ground (arith, flush-empty rest (send_raw frame.raw w).1)

  flush_stops :
      (frames : List OcppFrame) (w : W) (e : ProxyError)
      → (flush send_raw frames w).0 ≡ some e
      → (flush send_raw frames w).1 ≢ []
  unfolding flush
  flush_stops [] w e h = absurd (cc)
  flush_stops (frame ∷ rest) w e h = ground (arith, flush_stops rest (send_raw frame.raw w).1 e)

  pub flush-length :
      (frames : List OcppFrame) (w : W) → length (flush send_raw frames w).1 ≤ length frames
  unfolding flush
  flush-length [] w = omega arith
  flush-length (frame ∷ rest) w = ground (arith, flush-length rest (send_raw frame.raw w).1)

  -- A replay gives the destination a first part of the buffer and keeps the rest, in their order: no
  -- message is lost, repeated or moved. It reports success exactly when it has sent all, with the
  -- number of messages that were buffered; otherwise messages remain.
  -- It tracks no call.
  pub flush_upstream_lem :
      (f : MessageForwarder) (w : W)
      → let r = flush_upstream send_raw f w in
        (given r.2 ++ raws r.1.upstream_buffer ≡ given w ++ raws f.upstream_buffer)
        × ((n : ℕ) → (r.0 ≡ ok n) ↔ ((n ≡ length f.upstream_buffer) × (r.1.upstream_buffer ≡ [])))
        × (r.1.call_tracker ≡ f.call_tracker)
  unfolding flush_upstream
  flush_upstream_lem f w = (
    flush-order f.upstream_buffer w,
    λ n. (
      λ h. ground (arith, flush-empty f.upstream_buffer w),
      λ h. elim (Option-cases (flush send_raw f.upstream_buffer w).0) [
        | inl none_left ↦ ground arith
        | inr (e, p) ↦ absurd (flush_stops f.upstream_buffer w e p h.1)
      ],
    ),
    refl,
  )
