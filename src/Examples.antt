-- ===== src/Examples.antt =====
-- Concrete inputs on which the theorems apply.
pub mod Fixtures
pub mod Models
pub mod Commands
pub mod Sessions
pub mod Runs
pub mod Publisher
pub mod Mqtt
pub mod Startup
pub mod Storage
