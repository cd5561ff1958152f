-- ===== src/Room.antt =====
-- Rooms and their live side (apps/api/src/domain/room, apps/api/src/room).
pub mod Entity
pub mod Events
pub mod Repository
pub mod Router
pub mod World
pub mod Code
pub mod Presence
pub mod Log
pub mod Gateway
pub mod Service
