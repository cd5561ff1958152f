-- ===== src/Participant/Entity.antt =====
-- apps/api/src/domain/participant/participant.entity.ts. Times are milliseconds.
use synxor.Common.{ℕ, Option, Text}

pub data ParticipantRole : Type 0 where
  sender receiver : ParticipantRole

pub record Participant : Type 0 where
  pub id : ℕ
  pub room_id : ℕ
  pub role : ParticipantRole
  pub token_hash : Text
  pub display_name : Option Text
  pub joined_at : ℕ
  pub disconnected_at : Option ℕ

pub record CreateParticipantInput : Type 0 where
  pub room_id : ℕ
  pub role : ParticipantRole
  pub token_hash : Text
  pub display_name : Option Text
