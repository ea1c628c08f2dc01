-- ===== src/Protocol.antt =====
-- internal/protocol: the binary frames and the message bodies.
pub mod Frame
pub mod Text
pub mod Battle
pub mod Lobby
pub mod Numbers
pub mod Items
mod Tests
