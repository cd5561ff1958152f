-- ===== src/Tests.antt =====
-- The theorems at concrete inputs: `Data` has a small Room and a small file, the others apply the
-- theorems about uploads, Rooms, the gateway, the web client, tokens and sessions, Participants and
-- streams to them.
pub mod Data
pub mod Uploads
pub mod Rooms
pub mod Gateway
pub mod Web
pub mod Access
pub mod People
pub mod Streams
