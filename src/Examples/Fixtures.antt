-- ===== src/Examples/Fixtures.antt =====
-- The concrete values that the examples share: frames, requests, a JSON reader for a few texts, and a
-- wire that records what each peer is handed.
use ocpp_proxy.Base.{
  ◌≢◌, eq_iff, String, Bool, true, false, ◌==◌, none, some, List, [], ◌∷◌, ◌++◌, Result, ok, err,
  if◌then◌else◌, refl, ◌≡◌, arith,
}
use ocpp_proxy.Base.Float
use ocpp_proxy.Base.Float.{F64, Arithmetic}
use ocpp_proxy.Json.{Json, list, nat, string, dict}
use ocpp_proxy.Models.{OcppFrame, call, call_result}
use ocpp_proxy.Models.Backoff.{Seconds}
use ocpp_proxy.Command.{
  CommandRequest, new_request, clear_current_limit, from_mqtt, PreparedCall, InFlight,
}
use ocpp_proxy.Command.Queue.{LocalCallQueue}
use ocpp_proxy.Forwarder.{MessageForwarder, with_charge_point_id, buffer_upstream}
use ocpp_proxy.Config.Charging
use ocpp_proxy.Config.Charging.{ChargingConfig}
use ocpp_proxy.Events.{MqttEvent}
use ocpp_proxy.Session.Wire.{Wire, Libraries, Moment}
use ocpp_proxy.Session.Reconnect.{SessionConfig}

abbrev pub heartbeat_text : String
heartbeat_text = "[2,\"h1\",\"Heartbeat\",{}]"

abbrev pub heartbeat_json : Json
heartbeat_json = list (nat 2 ∷ string "h1" ∷ string "Heartbeat" ∷ dict [] ∷ [])

-- a parser that knows one text
abbrev pub from_str : String → Result String Json
from_str t = if t == heartbeat_text then ok heartbeat_json else err "expected value"

abbrev pub heartbeat : OcppFrame
heartbeat = record {
  raw = heartbeat_text;
  message_type = call "Heartbeat";
  unique_id = "h1";
  received_at = 5;
}

abbrev pub answer : OcppFrame
answer = record {
  raw = "[3,\"proxy-7-1\",{}]";
  message_type = call_result;
  unique_id = "proxy-7-1";
  received_at = 6;
}

abbrev pub clear_request : CommandRequest
clear_request = new_request 4 "cmd-1" clear_current_limit from_mqtt

abbrev pub prepared : PreparedCall
prepared = record {
  unique_id = "proxy-7-1";
  action = "ClearChargingProfile";
  raw = "[2,\"proxy-7-1\",\"ClearChargingProfile\",{}]";
  applied_limit_a = none;
  detail = none;
}

abbrev pub waiting : LocalCallQueue
waiting = record {
  queued = clear_request ∷ [];
  in_flight = none;
  timeout = 30;
  capacity = 16;
  sequence = 0;
}

abbrev pub in_flight : InFlight
in_flight = record { request = clear_request; prepared = prepared; sent_at = 5 }

abbrev pub answering : LocalCallQueue
answering = record {
  queued = [];
  in_flight = some in_flight;
  timeout = 30;
  capacity = 16;
  sequence = 1;
}

abbrev pub forwarder : MessageForwarder
forwarder = with_charge_point_id 2 30 60 "CP1"

abbrev pub buffering : MessageForwarder
buffering = buffer_upstream heartbeat forwarder

-- an arithmetic that is right on 31.96, of which it makes 32
abbrev pub arithmetic : Arithmetic
arithmetic = record {
  mul = λ x y. record { bits = 0x4073_f999_9999_999a };
  div = λ x y. record { bits = 0x4040_0000_0000_0000 };
  round = λ x. record { bits = 0x4074_0000_0000_0000 };
  of_nat = λ n. Float.zero;
  show = λ x. "31.96";
}

abbrev pub seconds : Seconds
seconds = record {
  as_secs_f64 = λ n. record { bits = n };
  mul = λ x y. x;
  from_secs_f64 = λ x. x.bits;
}

abbrev pub odd_ceiling : ChargingConfig
odd_ceiling = record Charging.default { max_limit_a = record { bits = 0x403f_f5c2_8f5c_28f6 } }

-- what each peer was handed, and whether the upstream is up
pub record World : Type 0 where
  pub charger : List String
  pub central : List String
  pub up : Bool
  pub events : List MqttEvent

abbrev pub world : World
world = record { charger = []; central = []; up = true; events = [] }

abbrev pub down : World
down = record { charger = []; central = []; up = false; events = [] }

abbrev offer : Bool → String → World → Result String (Unit {0}) × World
offer true raw w = (ok tt, record w { central = w.central ++ raw ∷ [] })
offer false raw w = (err "reset", w)

pub offer-ok :
    (b : Bool) (raw : String) (w : World)
    → (offer b raw w).0 ≡ ok tt
    → (offer b raw w).1.central ≡ w.central ++ raw ∷ []
offer-ok true raw w h = refl
offer-ok false raw w h = absurd (cc)

pub offer-err :
    (b : Bool) (raw : String) (w : World) (e : String)
    → (offer b raw w).0 ≡ err e
    → (offer b raw w).1.central ≡ w.central
offer-err true raw w e h = absurd (cc)
offer-err false raw w e h = refl

pub offer-charger : (b : Bool) (raw : String) (w : World) → (offer b raw w).1.charger ≡ w.charger
offer-charger true raw w = refl
offer-charger false raw w = refl

pub offer-events : (b : Bool) (raw : String) (w : World) → (offer b raw w).1.events ≡ w.events
offer-events true raw w = refl
offer-events false raw w = refl

abbrev pub wire : Wire World
wire = record {
  send_charger = λ raw w. (true, record w { charger = w.charger ++ raw ∷ [] });
  send_central = λ raw w. offer w.up raw w;
  send_pong = λ w. (true, w);
  close_charger = λ code w. w;
  try_send = λ e w. record w { events = w.events ++ e ∷ [] };
  to_charger = λ w. w.charger;
  to_central = λ w. w.central;
  charger-ok = λ raw w h. refl;
  charger-err = λ raw w h. absurd (cc);
  charger-central = λ raw w. refl;
  central-ok = λ raw w h. offer-ok w.up raw w h;
  central-err = λ raw w e h. offer-err w.up raw w e h;
  central-charger = λ raw w. offer-charger w.up raw w;
  publish-charger = λ e w. refl;
  publish-central = λ e w. refl;
  pong-charger = λ w. refl;
  close-charger = λ code w. refl;
  pong-central = λ w. refl;
  close-central = λ code w. refl;
  offered = λ w. w.events;
  publish-offered = λ e w. refl;
  charger-offered = λ raw w. refl;
  central-offered = λ raw w. offer-events w.up raw w;
  pong-offered = λ w. refl;
  close-offered = λ code w. refl;
}

abbrev pub lib : Libraries
lib = record {
  from_str = from_str;
  to_string = λ j. ok "[]";
  rfc3339 = λ n. "1970-01-01T00:00:00Z";
  debug = λ s. s;
  arithmetic = arithmetic;
  from_std = λ n. some n;
}

abbrev pub at : Moment
at = record { now = 5; millis = 7; instant = 100; stamp = "1970-01-01T00:00:00Z" }

false_differs : false ≢ true
false_differs h = ground arith

abbrev pub first : String
first = "CP1"

abbrev pub second : String
second = "CP2"

pub two_ids : second ≢ first
two_ids e = false_differs ((eq_iff second first).1 e)

abbrev pub config : SessionConfig
config = record {
  central_system_url = "ws://central";
  upstream_bind_address = none;
  subprotocol = "ocpp1.6";
  message_buffer_size = 2;
  max_buffer_duration = 30;
  connect_timeout = 10;
  initial_backoff = 1_000_000_000;
  max_backoff = 30_000_000_000;
  call_tracker_max_age = 60;
  max_reconnect_window = 60;
  charging = Charging.default;
}
