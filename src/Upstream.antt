-- ===== src/Upstream.antt =====
-- src/upstream.rs: the address of the Central System and the connection to it. Addresses are texts;
-- the URL crate, the resolver, the sockets and the WebSocket client are interfaces.
pub mod Dialing
pub mod Failing
use ocpp_proxy.Base.{
  ℕ, ◌/◌, String, Bool, true, false, Option, none, some, unwrap_or, List, [], ◌∷◌, ◌++◌, ◌≡◌,
  Result, ok, err, map_err, ok_or, ◌==◌, if◌then◌else◌, retain,
}
use ocpp_proxy.Base.Text.{format, decimal, ends_with}
use ocpp_proxy.Errors
use ocpp_proxy.Errors.{ProxyError}

-- `url::Url`
pub record Urls (Url : Type 0) : Type 0 where
  pub path : Url → String
  pub set_path : String → Url → Url
  pub host_str : Url → Option String
  pub port_or_known_default : Url → Option ℕ

-- `IpAddr` and `SocketAddr`: whether they are of the fourth version, as texts, and with a port
pub record Addresses (Ip Addr : Type 0) : Type 0 where
  pub is_ipv4 : Ip → Bool
  pub addr_is_ipv4 : Addr → Bool
  pub show : Ip → String
  pub with_port : Ip → ℕ → Addr

-- The sockets of the host. `tried` are the addresses that a connection was asked of, oldest first.
pub record Network (Ip Addr Socket Stream W : Type 0) : Type 0 where
  pub lookup_host : String → ℕ → W → Result String (List Addr) × W
  pub new_v4 : W → Result String Socket × W
  pub new_v6 : W → Result String Socket × W
  pub bind : Socket → Addr → W → Result String (Unit {0}) × W
  pub connect : Socket → Addr → W → Result String Stream × W
  pub tried : W → List Addr
  pub lookup-tried :
      (host : String) (port : ℕ) (w : W) → tried (lookup_host host port w).1 ≡ tried w
  pub v4-tried : (w : W) → tried (new_v4 w).1 ≡ tried w
  pub v6-tried : (w : W) → tried (new_v6 w).1 ≡ tried w
  pub bind-tried : (s : Socket) (a : Addr) (w : W) → tried (bind s a w).1 ≡ tried w
  pub connect-tried : (s : Socket) (a : Addr) (w : W) → tried (connect s a w).1 ≡ tried w ++ a ∷ []

-- `build_upstream_url`
unfoldable pub build_upstream_url : {Url : Type 0} → Urls Url → Url → String → Url
build_upstream_url urls base_url charge_point_id =
    let path = urls.path base_url in
    let directory = (if ends_with b'/' path then path else format (path ∷ "/" ∷ [])) in
    urls.set_path (format (directory ∷ charge_point_id ∷ [])) base_url

-- `a.is_ipv4() == b.is_ipv4()`
abbrev pub same_family : Bool → Bool → Bool
same_family true b = b
same_family false true = false
same_family false false = true

module _ {Ip Addr Socket Stream W : Type 0} (addresses : Addresses Ip Addr)
    (net : Network Ip Addr Socket Stream W) (host : String) (bind : Ip) where
  abbrev pub Dialed : Type 0
  Dialed = Result ProxyError Stream × W

  -- the error after the loop
  abbrev pub no_stream : Option String → ProxyError
  no_stream (some e) =
      Errors.connection_upstream (format ("Failed to connect to '" ∷ host ∷ "': " ∷ e ∷ []))
  no_stream none =
      Errors.connection_upstream
        (format ("No address for '" ∷ host ∷ "' matching bind family " ∷ addresses.show bind ∷ []))

  abbrev pub new_socket : W → Result String Socket × W
  new_socket w = if addresses.is_ipv4 bind then net.new_v4 w else net.new_v6 w

  -- the loop of `connect_bound`, with `last_err`
  unfoldable pub dial : List Addr → Option String → W → Dialed
  dial [] last_err w = (err (no_stream last_err), w)
  dial (addr ∷ addrs) last_err w =
      let (made, w1) = new_socket w in
      elim made [
        | err e ↦
            (err (Errors.connection_upstream (format ("Failed to create socket: " ∷ e ∷ []))), w1)
        | ok socket ↦
            let (bound, w2) = net.bind socket (addresses.with_port bind 0) w1 in
            let (connected, w3) = net.connect socket addr w2 in
            elim bound [
              | err e ↦ (
                err (
                    Errors.connection_upstream (
                      format (
                        "Failed to bind upstream socket to "
                        ∷ addresses.show bind
                        ∷ ": "
                        ∷ e
                        ∷ []))),
                w2,
              )
              | ok u ↦ (elim connected [
                | ok stream ↦ (ok stream, w3)
                | err e ↦ dial addrs (some e) w3
              ])
            ]
      ]

  -- the addresses of the bind address's family
  abbrev pub candidates : List Addr → List Addr
  candidates addrs =
      retain (λ a. same_family (addresses.addr_is_ipv4 a) (addresses.is_ipv4 bind)) addrs

module _ {Url Ip Addr Socket Stream W : Type 0} (urls : Urls Url) (addresses : Addresses Ip Addr)
    (net : Network Ip Addr Socket Stream W) where
  -- `connect_bound`
  unfoldable pub connect_bound : Url → Ip → W → Result ProxyError Stream × W
  connect_bound url bind w = elim (urls.host_str url) [
    | none ↦ (err (Errors.connection_upstream "Central System URL has no host"), w)
    | some host ↦
        let port = unwrap_or (urls.port_or_known_default url) 80 in
        let (resolved, w') = net.lookup_host host port w in
        elim resolved [
          | err e ↦ (
            err (
                Errors.connection_upstream
                  (format ("Failed to resolve '" ∷ host ∷ "': " ∷ e ∷ []))),
            w',
          )
          | ok addrs ↦
              dial addresses net host bind (candidates addresses net host bind addrs) none w'
        ]
  ]

-- The WebSocket client: a request, its subprotocol header, the connection, and the time limit, which
-- is kept on a run that otherwise yields its own result.
pub record WebSocketClient (Url Stream Request Ws W : Type 0) : Type 0 where
  pub into_client_request : Url → Result String Request
  pub insert_subprotocol : String → Request → Result String Request
  pub connect_async : Request → W → Result String Ws × W
  pub client_async : Request → Stream → W → Result String Ws × W
  pub timeout : ℕ → (W → Result ProxyError Ws × W) → W → Option (Result ProxyError Ws) × W
  pub timeout-some :
      (limit : ℕ) (run : W → Result ProxyError Ws × W) (w : W) (r : Result ProxyError Ws)
      → (timeout limit run w).0 ≡ some r
      → (run w).0 ≡ r

module _ {Url Ip Addr Socket Stream Request Ws W : Type 0} (urls : Urls Url)
    (addresses : Addresses Ip Addr) (net : Network Ip Addr Socket Stream W)
    (client : WebSocketClient Url Stream Request Ws W) where
  -- `map_err` to an error of the upstream connection
  abbrev pub upstream_err : {A : Type 0} → String → Result String A → Result ProxyError A
  upstream_err message r = map_err (λ e. Errors.connection_upstream (format (message ∷ e ∷ []))) r

  -- `.map(|(stream, _response)| stream)` with the error mapped
  abbrev pub opened_by : Result String Ws × W → Result ProxyError Ws × W
  opened_by (r, w) = (upstream_err "WebSocket connection failed: " r, w)

  -- the future `connect`
  unfoldable pub connect : Url → Option Ip → Request → W → Result ProxyError Ws × W
  connect url none request w = opened_by (client.connect_async request w)
  connect url (some bind) request w =
      let (dialed, w') = connect_bound urls addresses net url bind w in
      elim dialed [
        | err e ↦ (err e, w')
        | ok stream ↦ opened_by (client.client_async request stream w')
      ]

  abbrev pub or_timed_out : ℕ → Option (Result ProxyError Ws) → Result ProxyError Ws
  or_timed_out limit (some r) = r
  or_timed_out limit none = err (
      Errors.connection_upstream (
        format ("Connection timed out after " ∷ decimal (limit / 1_000_000_000) ∷ " seconds" ∷ [])))

  -- `connect_upstream`
  unfoldable pub connect_upstream : Url → String → Option Ip → ℕ → W → Result ProxyError Ws × W
  connect_upstream url subprotocol bind connect_timeout w =
      elim (upstream_err "Failed to build WebSocket request: " (client.into_client_request url)) [
        | err e ↦ (err e, w)
        | ok request ↦
            elim (upstream_err "Invalid subprotocol header value: "
              (client.insert_subprotocol subprotocol request)) [
                | err e ↦ (err e, w)
                | ok ready ↦
                    let (r, w') = client.timeout connect_timeout (connect url bind ready) w in
                    (or_timed_out connect_timeout r, w')
              ]
      ]
