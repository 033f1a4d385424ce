-- ===== src/Gateway.antt =====
-- crates/relaye/src/gateway.rs: the per-topic bridge between browser WebSocket clients and the
-- gossipsub mesh. The parts of the file are the children.
pub mod Sink
pub mod Registry
pub mod Upgrade
pub mod Response
pub mod Client
