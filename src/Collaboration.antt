-- ===== src/Collaboration.antt =====
-- The collaboration rooms and the presence of their users, of
-- crates/tiletopia-server/src/realtime.rs.
pub mod Maps
pub mod Rooms
pub mod Counted
pub mod RoomLaws
pub mod Releases
pub mod Presence
pub mod Seen
pub mod Roster
pub mod Socket
mod Tests
