-- ===== src/Me.antt =====
-- crates/me/src/lib.rs: identities, signed bindings and signed chat.
pub mod Hex
pub mod Keys
pub mod Claims
pub mod Canonical
pub mod Wire
