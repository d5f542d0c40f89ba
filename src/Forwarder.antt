-- ===== src/Forwarder.antt =====
-- src/forwarder.rs: forwarding with call tracking, and the buffers. A sink and the channel to the
-- MQTT publisher are arguments that change the world `W`; times are numbers of clock ticks.
pub mod Tracker
pub mod Flushing
pub mod Buffering
use ocpp_proxy.Base.{
  ℕ, ◌+◌, ◌-◌, String, Bool, Option, none, some, List, [], ◌∷◌, Result, ok, err, leb, length,
  retain, is_empty, push_bounded, unwrap_or, if◌then◌else◌,
}
use ocpp_proxy.Errors.{ProxyError}
use ocpp_proxy.Models.{
  OcppFrame, OcppMessageType, call, call_result, call_error, Direction, charger_to_central,
  central_to_charger,
}
use ocpp_proxy.Events.{MqttEvent, message_forwarded}
use Tracker
use Tracker.{CallTracker}

pub record MessageForwarder : Type 0 where
  pub upstream_buffer : List OcppFrame
  pub downstream_buffer : List OcppFrame
  pub max_buffer_size : ℕ
  pub max_buffer_duration : ℕ
  pub call_tracker : CallTracker
  pub charge_point_id : String

-- `MessageForwarder::with_charge_point_id`
unfoldable pub with_charge_point_id : ℕ → ℕ → ℕ → String → MessageForwarder
with_charge_point_id size duration tracker_age id = record {
  upstream_buffer = [];
  downstream_buffer = [];
  max_buffer_size = size;
  max_buffer_duration = duration;
  call_tracker = Tracker.new tracker_age;
  charge_point_id = id;
}

-- `has_recent_pending_call`
abbrev pub has_recent_pending_call : (ℕ → Option ℕ) → ℕ → Direction → ℕ → MessageForwarder → Bool
has_recent_pending_call from_std now direction max_age f =
    Tracker.has_recent_pending_in from_std now direction max_age f.call_tracker

resolve_as : OcppMessageType → String → Direction → ℕ → CallTracker → String × CallTracker
resolve_as (call action) id direction now t = (action, Tracker.track_call id action direction now t)
resolve_as call_result id direction now t =
    (unwrap_or (Tracker.resolve id t).0 "Unknown", (Tracker.resolve id t).1)
resolve_as call_error id direction now t =
    (unwrap_or (Tracker.resolve id t).0 "Unknown", (Tracker.resolve id t).1)

-- `resolve_action`
unfoldable pub resolve_action :
    OcppFrame → Direction → ℕ → MessageForwarder → String × MessageForwarder
unfolding resolve_as
resolve_action frame direction now f =
    let (action, t) = resolve_as frame.message_type frame.unique_id direction now f.call_tracker in
    (action, record f { call_tracker = t })

module _ {W : Type 0} (send_raw : String → W → Result ProxyError (Unit {0}) × W)
    (try_send : MqttEvent → W → W) where
  -- after the send: on success the action is resolved and the event handed over
  forwarded :
      OcppFrame
      → Direction
      → ℕ
      → MessageForwarder
      → Result ProxyError (Unit {0}) × W
      → Result ProxyError (Unit {0}) × MessageForwarder × W
  forwarded frame direction now f (ok u, w) =
      let (action, f') = resolve_action frame direction now f in
      (ok tt, f', try_send (message_forwarded f.charge_point_id frame direction action) w)
  forwarded frame direction now f (err e, w) = (err e, f, w)

  -- `forward_message`, `forward_upstream`, `forward_downstream`
  unfoldable pub forward_message :
      OcppFrame
      → Direction
      → ℕ
      → MessageForwarder
      → W
      → Result ProxyError (Unit {0}) × MessageForwarder × W
  unfolding forwarded
  forward_message frame direction now f w = forwarded frame direction now f (send_raw frame.raw w)

  abbrev pub forward_upstream :
      OcppFrame → ℕ → MessageForwarder → W → Result ProxyError (Unit {0}) × MessageForwarder × W
  forward_upstream frame now f w = forward_message frame charger_to_central now f w

  abbrev pub forward_downstream :
      OcppFrame → ℕ → MessageForwarder → W → Result ProxyError (Unit {0}) × MessageForwarder × W
  forward_downstream frame now f w = forward_message frame central_to_charger now f w

-- `buffer_upstream`, `buffer_downstream`
unfoldable pub buffer_upstream : OcppFrame → MessageForwarder → MessageForwarder
unfolding push_bounded
buffer_upstream frame f = record f {
  upstream_buffer = push_bounded f.max_buffer_size frame f.upstream_buffer;
}

unfoldable pub buffer_downstream : OcppFrame → MessageForwarder → MessageForwarder
unfolding push_bounded
buffer_downstream frame f = record f {
  downstream_buffer = push_bounded f.max_buffer_size frame f.downstream_buffer;
}

-- `discard_downstream_buffer`
unfoldable pub discard_downstream_buffer : MessageForwarder → MessageForwarder
discard_downstream_buffer f = record f { downstream_buffer = [] }

-- `evict_expired_messages`: how many messages go, and the forwarder
unfoldable pub evict_expired_messages : (ℕ → Option ℕ) → ℕ → MessageForwarder → ℕ × MessageForwarder
evict_expired_messages from_std now f =
    let max_age = unwrap_or (from_std f.max_buffer_duration) 30_000_000_000 in
    let keep = λ (frame : OcppFrame). leb now (frame.received_at + max_age) in
    let up = retain keep f.upstream_buffer in
    let down = retain keep f.downstream_buffer in
    (
      (length f.upstream_buffer - length up) + (length f.downstream_buffer - length down),
      record f { upstream_buffer = up; downstream_buffer = down },
    )

-- `cleanup_expired_calls`
unfoldable pub cleanup_expired_calls : (ℕ → Option ℕ) → ℕ → MessageForwarder → ℕ × MessageForwarder
cleanup_expired_calls from_std now f =
    let (evicted, t) = Tracker.cleanup_expired from_std now f.call_tracker in
    (evicted, record f { call_tracker = t })

module _ {W : Type 0} (send_raw : String → W → Result ProxyError (Unit {0}) × W) where
  -- the loop of `flush_upstream`: a frame whose send fails goes back to the front
  unfoldable pub flush : List OcppFrame → W → Option ProxyError × List OcppFrame × W
  flush [] w = (none, [], w)
  flush (frame ∷ rest) w =
      let (sent, w') = send_raw frame.raw w in
      elim sent [ ok u ↦ flush rest w' | err e ↦ (some e, frame ∷ rest, w') ]

  abbrev counted : ℕ → Option ProxyError → Result ProxyError ℕ
  counted n none = ok n
  counted n (some e) = err e

  -- `flush_upstream`, `flush_downstream`
  unfoldable pub flush_upstream : MessageForwarder → W → Result ProxyError ℕ × MessageForwarder × W
  flush_upstream f w =
      let (e, rest, w') = flush f.upstream_buffer w in
      (counted (length f.upstream_buffer) e, record f { upstream_buffer = rest }, w')

  unfoldable pub flush_downstream :
      MessageForwarder → W → Result ProxyError ℕ × MessageForwarder × W
  flush_downstream f w =
      let (e, rest, w') = flush f.downstream_buffer w in
      (counted (length f.downstream_buffer) e, record f { downstream_buffer = rest }, w')
