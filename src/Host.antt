-- ===== src/Host.antt =====
-- What the game around the page is made of: crates/laye-input, bevy-input-capture, bevy-observability,
-- bevy-drawer, and the scene of bevy-starter.
pub mod Input
pub mod Log
pub mod Drawer
pub mod Scene
