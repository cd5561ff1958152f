-- ===== src/Transfer/Sessions.antt =====
-- apps/api/src/domain/transfer/upload-session.ts and
-- apps/api/src/infrastructure/upload-session/in-memory-upload-session.store.ts: the uploads in
-- flight. The store's methods run with no `await` inside, so each is one step; the clock is an
-- argument.
pub mod Cap
pub mod Received
use synxor.Common.{
  ℕ, ◌+◌, Bool, leb, ltb, ◌==◌, if◌then◌else◌, Option, none, some, List, [], ◌∷◌, map, length,
  filter, add, Text, Dict, values, lookup, insert, erase, Result, ok, err, nat_eq,
}
use synxor.Participant.Identity.{ParticipantIdentity}
use synxor.Participant.Entity.{ParticipantRole}
use synxor.Transfer.Errors.{TransferError, upload_session_not_found}

abbrev pub max_concurrent_transfers_per_room : ℕ
max_concurrent_transfers_per_room = 10

pub record UploadAuthor : Type 0 where
  pub participant_id : Option ℕ
  pub role : ParticipantRole
  pub identity : ParticipantIdentity

pub record CreateUploadSessionInput : Type 0 where
  pub transfer_id : ℕ
  pub room_id : ℕ
  pub file_name : Text
  pub file_size_bytes : ℕ
  pub mime_type : Text
  pub total_chunks : ℕ
  pub author : Option UploadAuthor

pub record UploadSession : Type 0 where
  pub input : CreateUploadSessionInput
  pub open input use *
  pub received_chunks : List ℕ

-- What the store keeps: the session, and when it was reserved.
pub record MutableSession : Type 0 where
  pub session : UploadSession
  pub open session use *
  pub opened_at : ℕ

abbrev pub Sessions : Type 0
Sessions = Dict ℕ MutableSession

-- Values are immutable here, so a snapshot is the session itself, without the time.
abbrev pub snapshot : MutableSession → UploadSession
snapshot m = m.session

-- The loop that counts the Room's sessions.
unfoldable pub active : ℕ → List MutableSession → ℕ
active room [] = 0
active room (m ∷ ms) = if m.room_id == room then active room ms + 1 else active room ms

-- The session that `reserve` registers.
abbrev pub fresh : ℕ → CreateUploadSessionInput → MutableSession
fresh now input = record {
  session = record { input = input; received_chunks = [] };
  opened_at = now;
}

unfoldable pub reserve :
    ℕ → CreateUploadSessionInput → ℕ → Sessions → Option UploadSession × Sessions
unfolding active
reserve now input max_per_room s =
    if leb max_per_room (active input.room_id (values s))
    then (none, s)
    else (some (snapshot (fresh now input)), insert input.transfer_id (fresh now input) s)

unfoldable pub get : ℕ → Sessions → Option UploadSession
get transfer_id s = elim (lookup transfer_id s) [ none ↦ none | some m ↦ some (snapshot m) ]

abbrev pub received : ℕ → MutableSession → MutableSession
received i m = record m {
  session = record (m.session) { received_chunks = add i m.received_chunks };
}

unfoldable pub mark_received : ℕ → ℕ → Sessions → Result TransferError UploadSession × Sessions
mark_received transfer_id chunk_index s = elim (lookup transfer_id s) [
  | none ↦ (err (upload_session_not_found transfer_id), s)
  | some m ↦ (ok (snapshot (received chunk_index m)), insert transfer_id (received chunk_index m) s)
]

-- `delete`
unfoldable pub delete_session : ℕ → Sessions → Sessions
delete_session transfer_id s = erase transfer_id s

unfoldable pub find_abandoned : ℕ → Sessions → List UploadSession
find_abandoned opened_before s =
    map snapshot (filter (λ m. ltb m.opened_at opened_before) (values s))
