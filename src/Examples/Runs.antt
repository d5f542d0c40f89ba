-- ===== src/Examples/Runs.antt =====
-- The theorems on whole sessions, at concrete inputs: the charger sends a heartbeat, a request
-- arrives, the upstream is lost, and one request is unread when the session ends.
use ocpp_proxy.Base.{
  ◌+◌, ◌≤◌, String, Bool, true, false, ◌==◌, none, some, List, [], ◌∷◌, ◌++◌, ◌≡◌, length,
}
use ocpp_proxy.Models.Backoff.{with_defaults}
use ocpp_proxy.State
use ocpp_proxy.Forwarder.Flushing.{raws}
use ocpp_proxy.Session.Wire.{Moment}
use ocpp_proxy.Session.Loop.{text, close, Event, from_charger, from_central, command}
use ocpp_proxy.Session.Reconnect.{Link, Round, refused, opened, slept, run_session, teardown}
use ocpp_proxy.Session.Conservation.{Kept}
use ocpp_proxy.Session.Relay.{owed_by_session, buffer}
use ocpp_proxy.Session.Whole.{start, session, session-Kept}
use ocpp_proxy.Session.Downlink.{Handed}
use ocpp_proxy.Session.Downlink.Sessions.{sent_by_session, session-Handed}
use ocpp_proxy.Session.Ledger.{outstanding, results, asked}
use ocpp_proxy.Session.Ledger.Sessions.{asked_by_session}
use ocpp_proxy.Session.Ledger.Ending.{one_result_each}
use ocpp_proxy.Examples.Fixtures.{
  config, wire, lib, at, world, heartbeat_text, clear_request, answering, buffering, seconds,
}
open wire use {to_central}

abbrev link : Link
link = record {
  session = record {
    forwarder = buffering;
    local = answering;
    commands_open = true;
    manager = State.new;
  };
  backoff = with_defaults 1_000_000_000 30_000_000_000;
  reconnecting_since = none;
  close_code = 1000;
}

abbrev events : List (Moment × Event)
events =
    (at, from_charger (text heartbeat_text))
    ∷ (at, command (some clear_request))
    ∷ (at, from_central close)
    ∷ []

abbrev rounds : List Round
rounds = refused at at slept ∷ opened at at events at slept ∷ []

abbrev this_id : String → Bool
this_id id = id == "cmd-1"

one_result_each_example :
    let (on, l', w') = run_session wire lib seconds "CP1" config rounds link world in
    let (ended, v) = teardown wire lib seconds "CP1" config at at (clear_request ∷ []) [] l' w' in
    (results this_id wire lib "CP1" v
      ≡ results this_id wire lib "CP1" world
        + (outstanding this_id link.session.local
            + asked_by_session this_id wire lib seconds "CP1" config rounds link world
            + asked this_id (clear_request ∷ [])))
    × (outstanding this_id ended.session.local ≡ 0)
one_result_each_example =
    one_result_each this_id wire lib seconds "CP1" config rounds at at (clear_request ∷ []) [] link
      world

session-Kept_example :
    let (l, ended, v) =
      session wire lib seconds "CP1" config rounds at at (clear_request ∷ []) [] State.new world in
    ((ks : List String) × Kept lib
        (owed_by_session wire lib seconds "CP1" config rounds (start config "CP1" State.new) world)
        ks
      × (to_central v ++ raws (buffer wire lib seconds "CP1" config l) ≡ to_central world ++ ks))
    × (length (buffer wire lib seconds "CP1" config l) ≤ 1)
session-Kept_example =
    session-Kept wire lib seconds "CP1" config rounds at at (clear_request ∷ []) [] State.new world

-- Between the two texts of the Central System, a request arrives.
abbrev answers : List Round
answers =
    opened at at
      ((at, from_central (text heartbeat_text))
        ∷ (at, command (some clear_request))
        ∷ (at, from_central (text heartbeat_text))
        ∷ (at, from_central close)
        ∷ [])
      at slept
    ∷ []

session-Handed_example :
    let begun = start config "CP1" State.new in
    let (on, l, w') = run_session wire lib seconds "CP1" config answers begun world in
    let (l', ended, v) =
      session wire lib seconds "CP1" config answers at at [] [] State.new world in
    Handed wire lib "CP1" config.charging
      (on ≡ false)
      (sent_by_session wire lib seconds "CP1" config answers begun world)
      world
      v
session-Handed_example =
    session-Handed wire lib seconds "CP1" config answers at at [] [] State.new world
