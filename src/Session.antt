-- ===== src/Session.antt =====
-- src/session.rs: one charger's session, which owns both of its sockets. `Wire` holds the transports,
-- `LocalCalls` the proxy's own calls, `Loop` the forwarding loop and `Reconnect` the outer loop.
pub mod Wire
pub mod LocalCalls
pub mod Loop
pub mod Status
pub mod Reconnect
pub mod Replay
pub mod Sending
pub mod Transparency
pub mod Verbatim
pub mod Accounts
pub mod Conservation
pub mod Relay
pub mod Downlink
pub mod Ledger
pub mod Whole
