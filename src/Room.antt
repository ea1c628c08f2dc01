-- ===== src/Room.antt =====
-- internal/room: the game loop of a room.
pub mod Float
pub mod MapData
pub mod Player
pub mod Validation
pub mod Geometry
pub mod Invariant
pub mod Table
pub mod Hit
pub mod Weapons
pub mod Upkeep
pub mod State
pub mod Roster
pub mod Broadcast
pub mod Loop
pub mod Tests
