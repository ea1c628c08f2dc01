-- ===== src/Gateway.antt =====
-- internal/gateway: sessions, the hub, the room list and the server.
pub mod State
pub mod Send
pub mod Steady
pub mod Registry
pub mod Presence
pub mod Battle
pub mod Friends
pub mod Bag
pub mod Session
pub mod Server
pub mod Invariant
mod Tests
