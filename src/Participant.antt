-- ===== src/Participant.antt =====
-- Participants of a Room (apps/api/src/domain/participant).
pub mod Entity
pub mod Identity
pub mod Repository
