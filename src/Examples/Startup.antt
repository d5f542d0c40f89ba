-- ===== src/Examples/Startup.antt =====
-- The theorems on the start of the program, the connection to the Central System and the end, at
-- concrete inputs.
use ocpp_proxy.Base.{
  ℕ, String, Bool, true, false, none, some, List, [], ◌∷◌, ◌++◌, ◌≡◌, ◌↔◌, ◌⊎◌, refl, arith, Result,
  ok, err, if◌then◌else◌, eqb, unwrap_or,
}
use ocpp_proxy.Base.Text.{format}
use ocpp_proxy.Errors
use ocpp_proxy.Errors.{ProxyError}
use ocpp_proxy.Config.{ProxyConfig, RawProxyConfig, MqttConfig, load_from_path, validate}
use ocpp_proxy.Config.Missing.{no_mqtt, no_host, Mentions, load_from_path-Absent}
use ocpp_proxy.Config.Defaults.{Given, fill, RequiredAreSound, fill-validate}
use ocpp_proxy.Mqtt.Startup.{con_ack, other, failed, try_connect}
use ocpp_proxy.Mqtt.Startup.Connecting.{Settled, try_connect-Settled}
use ocpp_proxy.Upstream.{
  Urls, Addresses, Network, WebSocketClient, connect, connect_bound, connect_upstream,
}
use ocpp_proxy.Upstream.Dialing.{Chosen, Outcome, connect_bound_lem}
use ocpp_proxy.Upstream.Failing.{OfUpstream, connect_upstream-err}
use ocpp_proxy.Examples.Fixtures.{seconds}
use ocpp_proxy.Examples.Models.{show, files}
use ocpp_proxy.Examples.Mqtt.{client, publisher, decoders, clock, rfc3339}

-- an address is its family and a number; the third one answers
abbrev Address : Type 0
Address = Bool × ℕ

abbrev answer : Address → Result String ℕ
answer (v4, n) = if eqb n 3 then ok 3 else err "refused"

abbrev urls : Urls String
urls = record {
  path = λ u. "/";
  set_path = λ p u. p;
  host_str = λ u. some "central";
  port_or_known_default = λ u. none;
}

abbrev addresses : Addresses Bool Address
addresses = record {
  is_ipv4 = λ v4. v4;
  addr_is_ipv4 = λ a. a.0;
  show = λ v4. "10.0.0.2";
  with_port = λ v4 port. (v4, port);
}

abbrev net : Network Bool Address (Unit {0}) ℕ (List Address)
net = record {
  lookup_host = λ host port w. (ok ((false, 1) ∷ (true, 2) ∷ (true, 3) ∷ (true, 4) ∷ []), w);
  new_v4 = λ w. (ok tt, w);
  new_v6 = λ w. (ok tt, w);
  bind = λ s a w. (ok tt, w);
  connect = λ s a w. (answer a, w ++ a ∷ []);
  tried = λ w. w;
  lookup-tried = λ host port w. refl;
  v4-tried = λ w. refl;
  v6-tried = λ w. refl;
  bind-tried = λ s a w. refl;
  connect-tried = λ s a w. refl;
}

connect_bound_lem_example :
    let r = connect_bound urls addresses net "ws://central" true [] in
    ((d : String) × (r.0 ≡ err (Errors.connection_upstream d)) × (net.tried r.1 ≡ net.tried []))
    ⊎ ((host : String) × (addrs : List Address) × (urls.host_str "ws://central" ≡ some host)
        × ((net.lookup_host host (unwrap_or (urls.port_or_known_default "ws://central") 80) []).0
            ≡ ok addrs)
        × ((cs : List Address) × Chosen addresses net host true addrs cs
            × Outcome addresses net host true cs [] r))
connect_bound_lem_example = connect_bound_lem urls addresses net "ws://central" true []

some-inj : {A : Type 0} → (x y : A) → some x ≡ some y → x ≡ y
some-inj x y h = cc

abbrev refusing : WebSocketClient String ℕ String ℕ (List Address)
refusing = record {
  into_client_request = λ u. ok u;
  insert_subprotocol = λ p r. ok r;
  connect_async = λ r w. (err "refused", w);
  client_async = λ r s w. (ok 0, w);
  timeout = λ limit run w. (some (run w).0, (run w).1);
  timeout-some = λ limit run w r h. some-inj _ r h;
}

connect_upstream-err_example :
    OfUpstream urls addresses net refusing
      (Errors.connection_upstream "WebSocket connection failed: refused")
unfolding connect_upstream connect
connect_upstream-err_example =
    connect_upstream-err urls addresses net refusing "ws://central" "ocpp1.6" none 10 []
      (Errors.connection_upstream "WebSocket connection failed: refused") refl

abbrev no_broker : RawProxyConfig
no_broker = record {
  central_system_url = some "wss://central.example/ocpp";
  listen_port = some 9000;
  mqtt = none;
}

abbrev unread : Unit {0} → Result String ProxyConfig
unread u = err "missing field `mqtt`"

load_from_path-Absent_example :
    (d : String) × (load_from_path show files (ok tt) (λ u. some no_broker) unread
      ≡ err (Errors.config d))
    × Mentions d (format ("  - " ∷ "mqtt.host" ∷ []))
load_from_path-Absent_example =
    load_from_path-Absent show files tt (λ u. some no_broker) unread no_broker "mqtt.host" refl
      (no_mqtt (no_host refl))

abbrev plain : MqttConfig
plain = record {
  host = "broker";
  port = 1883;
  username = "proxy";
  password = "secret";
  ca_cert_path = none;
  client_cert_path = none;
  client_key_path = none;
}

abbrev given : Given
given = record {
  central_system_url = "wss://central.example/ocpp";
  listen_port = 9000;
  mqtt = plain;
  listen_address = none;
  upstream_bind_address = none;
  charge_point_id = none;
  health_port = none;
  logging = none;
  buffers = none;
  state_file = none;
  charging = none;
}

fill-validate_example : (validate show files (fill given) ≡ []) ↔ RequiredAreSound given
fill-validate_example = fill-validate show files given refl refl refl refl refl

try_connect-Settled_example : Settled client decoders rfc3339 seconds (
    try_connect client decoders rfc3339 seconds 10 0
      (((1, clock, failed) ∷ (2, clock, other) ∷ []) ++ (10, clock, con_ack) ∷ [])
      publisher
      [])
try_connect-Settled_example =
    try_connect-Settled client decoders rfc3339 seconds 10 0
      ((1, clock, failed) ∷ (2, clock, other) ∷ []) 10 clock con_ack publisher [] (omega arith)
