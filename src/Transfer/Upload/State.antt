-- ===== src/Transfer/Upload/State.antt =====
-- The state and the requests of chunked-upload.service.ts. What comes from outside the repository's
-- code during a request is in `Env`: the clock, the id that `randomUUID` draws, and which calls of
-- the database and of storage fail.
use synxor.Common.{ℕ, Bool, Option, List, Text}
use synxor.Participant.Entity.{ParticipantRole}
use synxor.Participant.Repository.{ParticipantRepository}
use synxor.Room.Events.{Emission}
use synxor.Storage.Objects.{Bytes, Objects}
use synxor.Transfer.Repository.{TransferRepository}
use synxor.Transfer.Sessions.{Sessions}

-- What the service reads and writes.
pub record Api : Type 0 where
  pub sessions : Sessions
  pub transfers : TransferRepository
  pub participants : ParticipantRepository
  pub objects : Objects
  pub emitted : List Emission

pub record Env : Type 0 where
  pub now : ℕ
  pub random_uuid : ℕ
  pub create_fails : Bool
  pub create_file_payload_fails : Bool
  pub put_chunk_fails : Bool
  pub put_file_fails : Bool
  pub remove_chunk_fails : ℕ → Bool

pub record AcceptChunkInput : Type 0 where
  pub room_id : ℕ
  pub transfer_id : Option ℕ
  pub chunk_index : ℕ
  pub total_chunks : ℕ
  pub file_name : Text
  pub file_size_bytes : ℕ
  pub mime_type : Text
  pub chunk : Bytes
  pub author_token_hash : Option Text
  pub author_role : Option ParticipantRole

pub record AcceptChunkResult : Type 0 where
  pub transfer_id : ℕ
  pub received_chunks : ℕ
  pub total_chunks : ℕ
  pub complete : Bool
