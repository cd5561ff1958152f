-- ===== src/Transfer/Upload/Open.antt =====
-- `resumeSession`, `openSession` and `resolveAuthor` of chunked-upload.service.ts.
use synxor.Common.{
  ℕ, ◌==◌, Bool, true, false, not, if◌then◌else◌, ltb, Option, none, some, [], ◌∷◌, Text, Result,
  ok, err, ◌>>=◌, ◌>>◌, or_throw, throw_if,
}
use synxor.Participant.Entity.{ParticipantRole, Participant}
use synxor.Participant.Identity.{derive_identity}
use synxor.Participant.Repository.{ParticipantRepository, find_by_room_and_token_hash}
use synxor.Storage.Key.{file_object_key}
use synxor.Transfer.Entity.{file}
use synxor.Transfer.Errors.{
  TransferError, file_too_large, upload_session_not_found, upload_room_mismatch,
  concurrent_transfer_limit, database_failure,
}
use synxor.Transfer.Repository.{TransferRepository, create, create_file_payload}
use synxor.Transfer.Sessions.{
  UploadAuthor, UploadSession, CreateUploadSessionInput, Sessions,
  max_concurrent_transfers_per_room, reserve, get, delete_session,
}
use synxor.Transfer.Upload.State.{Api, Env, AcceptChunkInput}

unfoldable pub resume_session : ℕ → ℕ → Sessions → Result TransferError UploadSession
resume_session transfer_id room s = do
  session ← or_throw (get transfer_id s) (upload_session_not_found transfer_id)
  throw_if (not (session.room_id == room)) (upload_room_mismatch transfer_id)
  ok session

abbrev author_of : Text → ParticipantRole → Option Participant → UploadAuthor
author_of hash role none = record {
  participant_id = none;
  role = role;
  identity = derive_identity hash none;
}
author_of hash role (some p) = record {
  participant_id = some p.id;
  role = role;
  identity = derive_identity hash p.display_name;
}

-- An empty hash counts as an absent one.
abbrev resolve :
    ℕ → Option Text → Option ParticipantRole → ParticipantRepository → Option UploadAuthor
resolve room none role r = none
resolve room (some []) role r = none
resolve room (some (c ∷ cs)) none r = none
resolve room (some (c ∷ cs)) (some role) r =
    some (author_of (c ∷ cs) role (find_by_room_and_token_hash room (c ∷ cs) r))

unfoldable pub resolve_author : AcceptChunkInput → ParticipantRepository → Option UploadAuthor
resolve_author input r = resolve input.room_id input.author_token_hash input.author_role r

-- What `openSession` asks the store to reserve.
unfoldable pub session_input :
    Env → AcceptChunkInput → Option UploadAuthor → CreateUploadSessionInput
session_input env input author = record {
  transfer_id = env.random_uuid;
  room_id = input.room_id;
  file_name = input.file_name;
  file_size_bytes = input.file_size_bytes;
  mime_type = input.mime_type;
  total_chunks = input.total_chunks;
  author = author;
}

abbrev participant_of : Option UploadAuthor → Option ℕ
participant_of none = none
participant_of (some a) = a.participant_id

-- The `try` block: the Transfer row, then the FilePayload row. A failed call writes nothing, and
-- the first row stays when the second call fails. The flag says whether one failed.
unfoldable pub create_rows :
    Env → AcceptChunkInput → Option UploadAuthor → TransferRepository → Bool × TransferRepository
create_rows env input author r =
    if env.create_fails
    then (true, r)
    else let (_, r') =
        create env.now
          (record {
            id = some env.random_uuid;
            room_id = input.room_id;
            payload_type = file;
            content_length = input.file_size_bytes;
            author_participant_id = participant_of author;
          })
          r in
      if env.create_file_payload_fails
      then (true, r')
      else let (_, r'') =
          create_file_payload
            (record {
              transfer_id = env.random_uuid;
              file_name = input.file_name;
              file_size_bytes = input.file_size_bytes;
              mime_type = input.mime_type;
              storage_key = file_object_key input.room_id env.random_uuid;
            })
            r' in
        (false, r'')

-- After the slot is reserved: the rows, or the slot released.
unfoldable pub open_reserved :
    Env
    → AcceptChunkInput
    → Option UploadAuthor
    → UploadSession
    → Sessions
    → Api
    → Result TransferError UploadSession × Api
unfolding create_rows
open_reserved env input author session sessions s =
    let (failed, rows) = create_rows env input author s.transfers in
    if failed
    then (
      err database_failure,
      record s { sessions = delete_session env.random_uuid sessions; transfers = rows },
    )
    else (ok session, record s { sessions = sessions; transfers = rows })

unfoldable pub open_session :
    Env → ℕ → AcceptChunkInput → Api → Result TransferError UploadSession × Api
unfolding open_reserved session_input resolve_author
open_session env max_file_size_bytes input s =
    if ltb max_file_size_bytes input.file_size_bytes
    then (err (file_too_large input.file_size_bytes max_file_size_bytes), s)
    else let author = resolve_author input s.participants in
      let (reserved, sessions) =
        reserve env.now (session_input env input author) max_concurrent_transfers_per_room
          s.sessions in
      elim reserved [
        | none ↦ (err (concurrent_transfer_limit max_concurrent_transfers_per_room), s)
        | some session ↦ open_reserved env input author session sessions s
      ]

-- `input.transferId ? resumeSession : openSession`
unfoldable pub session_for :
    Env → ℕ → AcceptChunkInput → Api → Result TransferError UploadSession × Api
unfolding resume_session open_session
session_for env max_file_size_bytes input s = elim (input.transfer_id) [
  | none ↦ open_session env max_file_size_bytes input s
  | some transfer_id ↦ (resume_session transfer_id input.room_id s.sessions, s)
]
