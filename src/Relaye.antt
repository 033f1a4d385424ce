-- ===== src/Relaye.antt =====
-- crates/relaye: the relay's counters, the percent coding of its HTTP server, and the state of its
-- login flows.
pub mod Http
pub mod Percent
pub mod Stats
pub mod Flows
pub mod Sign
pub mod Resolve
pub mod Dpop
pub mod Callback
pub mod Start
pub mod Routes
pub mod Jwt
pub mod Conn
pub mod Startup
