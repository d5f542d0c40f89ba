-- ===== src/Examples/Sessions.antt =====
-- The theorems on sessions and on the forwarder, at concrete inputs.
use ocpp_proxy.Base.{
  ◌<◌, max, ℕ, ◌+◌, ◌≤◌, true, false, none, some, [], ◌∷◌, ◌++◌, ◌≡◌, ◌≢◌, ◌↔◌, ◌⊎◌, refl, arith,
  ok, All, length,
}
use ocpp_proxy.Models.{charger_to_central, central_to_charger}
use ocpp_proxy.Models.Backoff.{with_defaults}
use ocpp_proxy.State
use ocpp_proxy.Config.Charging
use ocpp_proxy.Forwarder.{
  flush_upstream, with_charge_point_id, evict_expired_messages, has_recent_pending_call,
}
use ocpp_proxy.Forwarder.Flushing.{Sink, raws, flush_upstream_lem}
use ocpp_proxy.Forwarder.Buffering.{
  IsBounded, operations, up, discarded, operations-IsBounded, too_old, evict_expired_messages_lem,
}
use ocpp_proxy.Forwarder.Tracker
use ocpp_proxy.Forwarder.Tracker.{resolve, track_call, cleanup_expired}
use ocpp_proxy.Forwarder.Tracker.Correlation.{pass, answered, resolve-track_call}
use ocpp_proxy.Session.LocalCalls.{send_local_calls, central_call_grace}
use ocpp_proxy.Session.Loop.{Session}
use ocpp_proxy.Session.Sending.{SentAtMostOne, send_local_calls_lem}
use ocpp_proxy.Session.Reconnect.{
  Link, on_connected, on_connect_failed, run_session, elapsed, close_going_away, one_millisecond,
}
use ocpp_proxy.Session.Replay.{
  refusals, on_connected_lem, on_connect_failed_lem, run_session-gives_up,
}
use ocpp_proxy.Examples.Fixtures.{
  config, World, wire, lib, at, world, down, heartbeat, answer, answering, waiting, forwarder,
  buffering, seconds,
}
open wire use {to_charger, to_central}

abbrev s : Session
s = record { forwarder = forwarder; local = answering; commands_open = true; manager = State.new }

send_local_calls_lem_example :
    let r = send_local_calls wire lib "CP1" Charging.default at forwarder waiting world in
    (to_central r.2 ≡ to_central world)
    × ((to_charger r.2 ≡ to_charger world)
        ⊎ ((waiting.in_flight ≡ none)
            × (has_recent_pending_call lib.from_std at.now central_to_charger central_call_grace
                  forwarder
                ≡ false)
            × SentAtMostOne wire lib "CP1" Charging.default at world r.1 r.2))
send_local_calls_lem_example =
    send_local_calls_lem wire lib "CP1" Charging.default at forwarder waiting world

abbrev link : Link
link = record {
  session = record s { forwarder = buffering };
  backoff = with_defaults 1_000_000_000 30_000_000_000;
  reconnecting_since = some 40;
  close_code = 1000;
}

on_connected_lem_example :
    let r = on_connected wire lib seconds "CP1" config at link world in
    (to_central r.2 ++ raws r.1.session.forwarder.upstream_buffer
      ≡ to_central world ++ raws link.session.forwarder.upstream_buffer)
    × (((r.0 ≡ true) × (r.1.session.forwarder.upstream_buffer ≡ []))
        ⊎ ((r.0 ≡ false) × (r.1.session.forwarder.upstream_buffer ≢ [])))
    × (r.1.backoff.current ≡ link.backoff.initial)
    × (r.1.reconnecting_since ≡ none)
on_connected_lem_example = on_connected_lem wire lib seconds "CP1" config at link world

on_connect_failed_lem_example :
    let r = on_connect_failed wire lib seconds "CP1" config at link down in
    ((config.max_reconnect_window ≤ elapsed at.instant link)
      × (r.0 ≡ none)
      × (r.1.close_code ≡ close_going_away))
    ⊎ ((d : ℕ) × (elapsed at.instant link < config.max_reconnect_window)
        × (r.0 ≡ some d)
        × (d ≤ link.backoff.max)
        × (elapsed at.instant link + d ≤ config.max_reconnect_window + one_millisecond)
        × (r.1.close_code ≡ link.close_code))
on_connect_failed_lem_example = on_connect_failed_lem wire lib seconds "CP1" config at link down

-- the second attempt fails 60 ticks after the loss
run_session-gives_up_example :
    let early = record at { instant = 50 } in
    let r =
      run_session wire lib seconds "CP1" config
        (refusals wire lib seconds "CP1" config ((early, early) ∷ (at, at) ∷ []))
        link
        down in
    (r.0 ≡ false) × (r.1.close_code ≡ close_going_away)
run_session-gives_up_example =
    run_session-gives_up wire lib seconds "CP1" config
      ((record at { instant = 50 }, record at { instant = 50 }) ∷ []) at at link down 40 refl
      (ground arith)

abbrev sink : Sink World
sink = record {
  send_raw = λ raw w. (ok tt, record w { central = w.central ++ raw ∷ [] });
  given = λ w. w.central;
  given-ok = λ raw w h. refl;
  given-err = λ raw w e h. absurd (cc);
}

flush_upstream_lem_example :
    let r = flush_upstream sink.send_raw buffering world in
    (sink.given r.2 ++ raws r.1.upstream_buffer
      ≡ sink.given world ++ raws buffering.upstream_buffer)
    × ((n : ℕ)
        → (r.0 ≡ ok n) ↔ ((n ≡ length buffering.upstream_buffer) × (r.1.upstream_buffer ≡ [])))
    × (r.1.call_tracker ≡ buffering.call_tracker)
flush_upstream_lem_example = flush_upstream_lem sink buffering world

operations-IsBounded_example :
    let f =
      operations
        (up heartbeat ∷ up answer ∷ up heartbeat ∷ discarded ∷ [])
        (with_charge_point_id 2 30 60 "CP1") in
    IsBounded f × (length f.upstream_buffer ≤ max 2 1) × (length f.downstream_buffer ≤ max 2 1)
operations-IsBounded_example =
    operations-IsBounded 2 30 60 "CP1" (up heartbeat ∷ up answer ∷ up heartbeat ∷ discarded ∷ [])

evict_expired_messages_lem_example :
    let r = evict_expired_messages (λ n. some n) 40 buffering in
    All (λ m. 40 ≤ m.received_at + 30) r.1.upstream_buffer
    × All (λ m. 40 ≤ m.received_at + 30) r.1.downstream_buffer
    × (r.0 ≡ too_old 40 30 buffering)
    × (r.0 + length r.1.upstream_buffer + length r.1.downstream_buffer
        ≡ length buffering.upstream_buffer + length buffering.downstream_buffer)
unfolding ocpp_proxy.Forwarder.buffer_upstream with_charge_point_id
evict_expired_messages_lem_example = evict_expired_messages_lem (λ n. some n) 40 30 buffering refl

resolve-track_call_example :
    let t' =
      pass (answered "b" ∷ []) (track_call "a" "Heartbeat" charger_to_central 1 (Tracker.new 60)) in
    ((resolve "a" t').0 ≡ some "Heartbeat") × ((resolve "a" (resolve "a" t').1).0 ≡ none)
resolve-track_call_example =
    resolve-track_call "a" "Heartbeat" charger_to_central 1 (answered "b" ∷ []) (Tracker.new 60)
      (refl, tt)
