-- ===== src/Lib.antt =====
-- The OCPP proxy: it sits between a charger and the Central System, forwards each OCPP 1.6J frame
-- unchanged, mirrors the traffic to an MQTT broker, and sends calls of its own to the charger for the
-- commands that arrive over MQTT. The definitions are translated from the Rust sources under `src/`.
--
-- How the parts work together. A charger connects to the server of downstream.rs, which registers the
-- connection and runs a session (session.rs). The session connects to the Central System, replays what
-- was buffered, and forwards in both directions with the forwarder (forwarder.rs), which tracks calls and
-- buffers frames. Commands come from the publisher (mqtt.rs) through the router of command.rs into the
-- session's queue of local calls. The forwarder and the session send events to the publisher.
--
-- Files:
-- Errors: error.rs. Models, Models.Frames, Models.Backoff: models.rs. State, State.Health,
-- State.Events: state.rs and the answer of health.rs. Config and its modules: config.rs.
-- Command: command.rs, with Command.Topics (the topics), Command.Payload (`parse_command_payload`),
-- Command.Limits (`resolve_limit`), Command.Calls (`prepare_call`), Command.Answers
-- (`interpret_response`), Command.Queue (`LocalCallQueue`) and Command.Router (`CommandRouter`).
-- Events (`MqttEvent`), Forwarder and Forwarder.Tracker (`CallTracker`): forwarder.rs.
-- Session.Wire (the sinks), Session.LocalCalls (`send_local_calls`, `complete_local_call`), Session.Loop
-- (`forward_loop`, one function for each branch of its `select!`), Session.Status
-- (`set_upstream_state`), Session.Reconnect (`run_session`) and Session.Whole (a session from its start to
-- its end): session.rs. Over these, Session.Transparency, Session.Verbatim and Session.Sending are about one
-- step, Session.Accounts, Session.Conservation and Session.Relay about the texts that the Central System is
-- owed by a step, a loop and all rounds, Session.Downlink with its modules about what the charger is handed,
-- and Session.Ledger with its modules about the requests.
-- Mqtt, Mqtt.Snapshot (`ChargePointState`), Mqtt.Buffer, Mqtt.Handling, Mqtt.Run and
-- Mqtt.Startup (`MqttPublisher`): mqtt.rs; Mqtt.Bounds with its modules is about its buffer,
-- Mqtt.Reconnection about a new connection to the broker. SnapshotStore: snapshot_store.rs. Upstream: upstream.rs.
-- Main: main.rs, shutdown.rs and the level of logging.rs.
-- Downstream and Downstream.Registry: downstream.rs. Base holds what all share, Json a JSON value and
-- its accessors, Examples the concrete inputs on which the theorems apply.
--
-- How code becomes definitions. A function that changes `self` takes the state and returns the new one;
-- what the world sees is a state `W` that is passed along. A task's loop is a function of the list of
-- events that it sees, and recursive on that list, so no fuel is needed; waiting is an event. Times are
-- numbers of ticks of a clock and arguments; a counter of type `u64` wraps at 2 ^ 64 and the difference of
-- two `i64` at 64 bits, as in a release build. A float is its bit pattern with the order of IEEE 754; its
-- arithmetic is an argument, as are the JSON parser and printer, the sockets, the MQTT client, the file
-- system and the `config` crate. A `HashMap` is an association list with distinct keys. A wait at the start or
-- at the end of the program is a function of its turns, and has a result by the first turn at its deadline.
--
-- Not modelled: the tasks that main.rs spawns and joins, the HTTP servers, charger_writer, which moves
-- messages from its channel to the socket, and logging.
pub mod Base
pub mod Errors
pub mod Json
pub mod Models
pub mod State
pub mod Config
pub mod Command
pub mod Events
pub mod Forwarder
pub mod Session
pub mod Mqtt
pub mod SnapshotStore
pub mod Upstream
pub mod Main
pub mod Downstream
pub mod Examples
