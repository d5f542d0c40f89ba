-- ===== src/Downstream.antt =====
-- src/downstream.rs: the subprotocol check, the registry of connected chargers, and the parts of
-- `handle_connection` around the session. Each part is one step of a connection's task: between them the
-- tasks of other connections run. `Token` stands for a cancellation token and `Tx` for the sending end
-- of a command channel.
pub mod Registry
use ocpp_proxy.Base.{
  ℕ, ◌+◌, ◌%◌, ◌^◌, String, Bool, true, false, not, ◌==◌, Option, none, some, List, [], ◌∷◌, ◌++◌,
  map, if◌then◌else◌, lookup, insert, remove, retain, any, eqb,
}
use ocpp_proxy.Base.Text.{split, trim, is_blank}
use ocpp_proxy.Models.{downstream, connecting, connected, disconnected}
use ocpp_proxy.State.{ConnectionStateManager, transition}
use ocpp_proxy.Events.{MqttEvent, state_change}
use ocpp_proxy.Command.Router
use ocpp_proxy.Command.Router.{Router}

abbrev ocpp16_subprotocol : String
ocpp16_subprotocol = "ocpp1.6"

-- `validate_subprotocol`
unfoldable pub validate_subprotocol : List String → Bool
validate_subprotocol protocols = any (λ p. p == ocpp16_subprotocol) protocols

-- `parse_subprotocol_header`
unfoldable pub parse_subprotocol_header : String → List String
unfolding split trim
parse_subprotocol_header header_value =
    retain (λ s. not (is_blank s)) (map trim (split b',' header_value))

-- the check of `ws_upgrade_handler` on the header, where it is there as a text
unfoldable pub subprotocol_valid : Option String → Bool
unfolding validate_subprotocol parse_subprotocol_header
subprotocol_valid none = false
subprotocol_valid (some header) = validate_subprotocol (parse_subprotocol_header header)

pub record ActiveConnection (Token : Type 0) : Type 0 where
  pub generation : ℕ
  pub cancel : Token

-- `DownstreamState`, with the tokens that were cancelled and the events that were sent
pub record DownstreamState (Token Tx : Type 0) : Type 0 where
  pub connections : List (String × ActiveConnection Token)
  pub state_manager : ConnectionStateManager
  pub generation : ℕ
  pub command_router : Router Tx
  pub cancelled : List Token
  pub mqtt_tx : List MqttEvent

-- the token of a connection that is replaced
abbrev pub displaced : {Token : Type 0} → Option (ActiveConnection Token) → List Token
displaced none = []
displaced (some c) = c.cancel ∷ []

module _ {Token Tx : Type 0} where
  -- `ws_upgrade_handler`: whether it upgrades
  unfoldable pub ws_upgrade_handler :
      ℕ → Option String → DownstreamState Token Tx → Bool × DownstreamState Token Tx
  unfolding subprotocol_valid
  ws_upgrade_handler now header s =
      if subprotocol_valid header
      then (true, record s { state_manager = transition now downstream connecting s.state_manager })
      else (false, s)

  -- `register_connection`: the generation, and the registry
  unfoldable pub register_connection :
      String → Token → DownstreamState Token Tx → ℕ × DownstreamState Token Tx
  register_connection id cancel s =
      let active : ActiveConnection Token = record { generation = s.generation; cancel = cancel } in
      (
        s.generation,
        record s {
          generation = (s.generation + 1) % 2 ^ 64;
          connections = insert id active s.connections;
          cancelled = s.cancelled ++ displaced (lookup id s.connections);
        },
      )

  -- `deregister_connection`
  unfoldable pub deregister_connection :
      String → ℕ → DownstreamState Token Tx → Bool × DownstreamState Token Tx
  deregister_connection id generation s = elim (lookup id s.connections) [
    | none ↦ (false, s)
    | some active ↦
        if eqb active.generation generation
        then (true, record s { connections = remove id s.connections })
        else (false, s)
  ]

  -- the registrations with the command router in `handle_connection`
  unfoldable pub route : String → ℕ → Tx → DownstreamState Token Tx → DownstreamState Token Tx
  unfolding Router.register
  route id generation tx s = record s {
    command_router = Router.register id generation tx s.command_router;
  }

  unfoldable pub unroute : String → ℕ → DownstreamState Token Tx → DownstreamState Token Tx
  unfolding Router.deregister
  unroute id generation s = record s {
    command_router = (Router.deregister id generation s.command_router).1;
  }

  -- the transitions of `handle_connection`, each with its status event
  announce : String → ConnectionStateManager → DownstreamState Token Tx → DownstreamState Token Tx
  announce id m s = record s {
    state_manager = m;
    mqtt_tx = s.mqtt_tx ++ state_change id m.upstream_state m.downstream_state ∷ [];
  }

  unfoldable pub charger_connected :
      ℕ → String → DownstreamState Token Tx → DownstreamState Token Tx
  unfolding announce
  charger_connected now id s = announce id (transition now downstream connected s.state_manager) s

  -- the end of `handle_connection`, after the session
  unfoldable pub leave : ℕ → String → ℕ → DownstreamState Token Tx → DownstreamState Token Tx
  unfolding announce deregister_connection
  leave now id generation s =
      let (still_current, left) = deregister_connection id generation s in
      if still_current
      then announce id (transition now downstream disconnected left.state_manager) left
      else left
