-- ===== src/Room/Events.antt =====
-- The wire events of apps/api/src/room/room-events.ts and apps/api/src/transfer/transfer-events.ts,
-- with their payloads and whom they are sent to.
use synxor.Common.{ℕ, Bool, Option, List, Text}
use synxor.Participant.Entity.{ParticipantRole}
use synxor.Participant.Identity.{ParticipantIdentity}
use synxor.Transfer.Entity.{PayloadType}

pub record TransferAuthor : Type 0 where
  pub role : ParticipantRole
  pub identity : Option ParticipantIdentity

pub record TransferProgressPayload : Type 0 where
  pub transfer_id : ℕ
  pub file_name : Text
  pub file_size_bytes : ℕ
  pub received_chunks : ℕ
  pub total_chunks : ℕ
  pub complete : Bool
  pub author : Option TransferAuthor

pub record TransferTextPayload : Type 0 where
  pub transfer_id : ℕ
  pub payload_type : PayloadType
  pub content : Text
  pub author : TransferAuthor

pub record RoomRosterPayload : Type 0 where
  pub roster : List ParticipantIdentity
  pub joined : Option ParticipantIdentity
  pub left : Option ParticipantIdentity

pub data Event : Type 0 where
  progress : TransferProgressPayload → Event
  delivered : ℕ → Event
  text : TransferTextPayload → Event
  joined : ℕ → Event
  left : ℕ → Event
  roster : RoomRosterPayload → Event
  closed : Event
  identity_self : ParticipantIdentity → Event
  identity : ParticipantIdentity → Event
  typing_state : ParticipantIdentity → Bool → Event

-- `server.to(room)`, `socket.to(room)` and `socket`.
pub data Audience : Type 0 where
  everyone : ℕ → Audience
  others : ℕ → ℕ → Audience
  socket : ℕ → Audience

pub record Emission : Type 0 where
  pub to : Audience
  pub event : Event
