-- ===== src/P2p.antt =====
-- crates/laye-p2p: chat, identity links, the stored key pair, the pipe of errors, and the state of
-- the page that ties them to the transport.
pub mod Errors
pub mod Chat
pub mod Identity
pub mod Store
pub mod App
