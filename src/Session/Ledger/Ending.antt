-- ===== src/Session/Ledger/Ending.antt =====
-- Every request that a session reads gets one result by its end (src/session.rs).
use ocpp_proxy.Base.{◌+◌, String, Bool, Option, none, some, List, [], ◌∷◌, ◌≡◌, ap, arith}
use ocpp_proxy.Models.{disconnected}
use ocpp_proxy.Models.Backoff.{Seconds}
use ocpp_proxy.Command.{CommandRequest, InFlight}
use ocpp_proxy.Command.Queue.{drain}
use ocpp_proxy.Session.Wire.{Wire, Libraries, Moment}
use ocpp_proxy.Session.Reconnect.{
  Link, SessionConfig, Round, enter, run_session, report_unsent, report_in_flight, undelivered,
  drain_commands, hang_up, teardown,
}
use ocpp_proxy.Session.Ledger.{
  asked, asked-cons, asked_in_flight, outstanding, reported, results, emit_request, emit_in_flight,
}
use ocpp_proxy.Session.Ledger.Sessions.{status-results, asked_by_session, run_session-Even}

module _ {W : Type 0} (p : String → Bool) (wire : Wire W) (lib : Libraries) (secs : Seconds)
    (id : String) (config : SessionConfig) where
  open wire use {offered}

  report_unsent-results :
      (stamp : String) (rs : List CommandRequest) (w : W)
      → results p wire lib id (report_unsent wire lib secs id config stamp rs w)
        ≡ results p wire lib id w + asked p rs
  unfolding report_unsent
  report_unsent-results stamp [] w = omega arith
  report_unsent-results stamp (r ∷ rs) w = omega (
    arith,
    report_unsent-results stamp rs _,
    emit_request p wire lib id stamp r _ _ w,
    asked-cons p r rs,
  )

  report_in_flight-results :
      (stamp : String) (f : Option InFlight) (w : W)
      → results p wire lib id (report_in_flight wire lib secs id config stamp f w)
        ≡ results p wire lib id w + asked_in_flight p f
  unfolding report_in_flight
  report_in_flight-results stamp none w = omega arith
  report_in_flight-results stamp (some f) w = emit_in_flight p wire lib id stamp f _ _ _ w

  -- The end of a session reports each request that is outstanding or unread, and leaves none.
  teardown_ledger :
      (at closed : Moment) (unread late : List CommandRequest) (l : Link) (w : W)
      → let (l', w') = teardown wire lib secs id config at closed unread late l w in
        (results p wire lib id w'
          ≡ results p wire lib id w + outstanding p l.session.local + asked p unread)
        × (outstanding p l'.session.local ≡ 0)
  unfolding teardown drain_commands hang_up enter drain
  teardown_ledger at closed unread late l w =
      let w1 = report_unsent wire lib secs id config at.stamp l.session.local.queued w in
      let w2 = report_in_flight wire lib secs id config at.stamp l.session.local.in_flight w1 in
      let w3 = report_unsent wire lib secs id config at.stamp unread w2 in
      (
        omega (
          arith,
          report_unsent-results at.stamp l.session.local.queued w,
          report_in_flight-results at.stamp l.session.local.in_flight w1,
          report_unsent-results at.stamp unread w2,
          ap (reported p) (wire.close-offered l.close_code w3),
          status-results p wire lib secs id config closed.now disconnected
              (undelivered wire lib secs id config l.session.forwarder l.session.manager)
              (wire.close_charger l.close_code w3),
        ),
        omega arith,
      )

  -- Whatever the test on the ids, from the start of a session to its end: the results that the publisher is
  -- offered are as many as the requests that the session read from its channel, those in the channel when
  -- its teardown drains it, and those that were outstanding at its start. None is outstanding at its end. So
  -- each of these requests gets one result, whether it was answered, displaced, expired, invalid, or cut off by
  -- the loss of the charger or of the upstream; a request that reaches the channel after it is drained gets none.
  pub one_result_each :
      (rs : List Round) (at closed : Moment) (unread late : List CommandRequest) (l : Link) (w : W)
      → let (on, l', w') = run_session wire lib secs id config rs l w in
        let (ended, v) = teardown wire lib secs id config at closed unread late l' w' in
        (results p wire lib id v
          ≡ results p wire lib id w
            + (outstanding p l.session.local
                + asked_by_session p wire lib secs id config rs l w
                + asked p unread))
        × (outstanding p ended.session.local ≡ 0)
  one_result_each rs at closed unread late l w =
      let (on, l', w') = run_session wire lib secs id config rs l w in
      let (counted, settled) = teardown_ledger at closed unread late l' w' in
      (omega (arith, counted, run_session-Even p wire lib secs id config rs l w), settled)
