-- ===== src/Session/LocalCalls.antt =====
-- `send_local_calls` and `complete_local_call` of src/session.rs: the calls of the proxy itself.
use ocpp_proxy.Base.{
  ℕ, String, Bool, true, false, ◌||◌, some, List, [], ◌∷◌, Result, ok, err, if◌then◌else◌,
}
use ocpp_proxy.Errors.{ProxyError}
use ocpp_proxy.Models.{OcppFrame, central_to_charger}
use ocpp_proxy.Config.Charging.{ChargingConfig}
use ocpp_proxy.Events.{command_result}
use ocpp_proxy.Command.{
  CommandRequest, CommandResult, InFlight, PreparedCall, for_request, for_in_flight, invalid,
  not_connected,
}
use ocpp_proxy.Command.Calls.{prepare_call}
use ocpp_proxy.Command.Answers.{interpret_response}
use ocpp_proxy.Command.Queue.{LocalCallQueue, has_in_flight, is_idle, next_unique_id, set_in_flight}
use ocpp_proxy.Forwarder.{MessageForwarder, has_recent_pending_call}
use ocpp_proxy.Session.Wire.{Wire, Libraries, Moment, charger_sink}

-- `CENTRAL_CALL_GRACE`: ten seconds
abbrev pub central_call_grace : ℕ
central_call_grace = 10_000_000_000

module _ {W : Type 0} (wire : Wire W) (lib : Libraries) (id : String) where
  -- `emit_command_result`
  unfoldable pub emit : CommandResult → W → W
  emit result w = wire.try_send (command_result id result) w

  module _ (charging : ChargingConfig) (at : Moment) where
    -- the call that a request becomes under the next unique id
    abbrev pub prepared_as : CommandRequest → LocalCallQueue → Result String PreparedCall
    prepared_as request q =
        prepare_call lib.arithmetic lib.rfc3339 lib.debug lib.to_string charging request
          (next_unique_id at.millis q).0 at.now

    -- after the send of a prepared call
    abbrev pub after_send :
        CommandRequest
        → PreparedCall
        → LocalCallQueue
        → Result ProxyError (Unit {0}) × W
        → Bool × LocalCallQueue × W
    after_send request p q (ok u, w) = (true, set_in_flight at.instant request p q, w)
    after_send request p q (err e, w) = (
      false,
      q,
      emit
          (for_request at.stamp request not_connected
            (some "charger connection closed before the command was sent"))
          w,
    )

    -- the `while let Some(request) = local.pop_next()` of `send_local_calls`, over the requests that
    -- wait; nothing is in flight, so each is the one that `pop_next` yields. The Boolean is false
    -- where the charger is gone.
    unfoldable pub send_next : List CommandRequest → LocalCallQueue → W → Bool × LocalCallQueue × W
    send_next [] q w = (true, record q { queued = [] }, w)
    send_next (request ∷ rest) q w =
        let popped = record q { queued = rest } in
        let numbered = (next_unique_id at.millis popped).1 in
        elim (prepared_as request popped) [
          | ok p ↦ after_send request p numbered (charger_sink wire p.raw w)
          | err reason ↦
              send_next rest numbered (emit (for_request at.stamp request invalid (some reason)) w)
        ]

    -- `send_local_calls`
    unfoldable pub send_local_calls :
        MessageForwarder → LocalCallQueue → W → Bool × LocalCallQueue × W
    send_local_calls f q w =
        if has_in_flight q || is_idle q
        then (true, q, w)
        else if has_recent_pending_call lib.from_std at.now central_to_charger central_call_grace f
        then (true, q, w)
        else send_next q.queued q w

  -- `complete_local_call`
  unfoldable pub complete_local_call : Moment → InFlight → OcppFrame → W → W
  complete_local_call at f frame w =
      let (status, response, detail) = interpret_response lib.from_str f.prepared.action frame in
      emit (for_in_flight lib.from_str at.stamp f status response detail) w
