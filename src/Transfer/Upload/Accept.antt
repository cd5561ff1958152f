-- ===== src/Transfer/Upload/Accept.antt =====
-- `acceptChunk` of chunked-upload.service.ts, and the broadcast of transfer-progress.notifier.ts.
use synxor.Common.{
  ℕ, ◌==◌, Bool, true, false, if◌then◌else◌, Option, none, some, [], ◌∷◌, ◌++◌, length, Result, ok,
  err,
}
use synxor.Room.Events.{TransferAuthor, Emission, progress, everyone}
use synxor.Storage.Key.{chunk_object_key}
use synxor.Storage.Objects.{put_object}
use synxor.Transfer.Assembler.{assemble}
use synxor.Transfer.Chunking.{validate_chunk}
use synxor.Transfer.Errors.{TransferError, storage_failure}
use synxor.Transfer.Sessions.{UploadAuthor, UploadSession, mark_received, delete_session}
use synxor.Transfer.Upload.State.{Api, Env, AcceptChunkInput, AcceptChunkResult}
use synxor.Transfer.Upload.Open.{session_for}

abbrev wire_author : Option UploadAuthor → Option TransferAuthor
wire_author none = none
wire_author (some a) = some (record { role = a.role; identity = some a.identity })

-- `TransferProgressNotifier.chunkReceived`
unfoldable pub chunk_received : UploadSession → ℕ → Bool → Emission
chunk_received session received complete = record {
  to = everyone session.room_id;
  event = progress (record {
    transfer_id = session.transfer_id;
    file_name = session.file_name;
    file_size_bytes = session.file_size_bytes;
    received_chunks = received;
    total_chunks = session.total_chunks;
    complete = complete;
    author = wire_author session.author;
  });
}

-- The broadcast and the answer.
unfoldable pub announce : UploadSession → Bool → Api → Result TransferError AcceptChunkResult × Api
unfolding chunk_received
announce updated complete s = (
  ok (record {
    transfer_id = updated.transfer_id;
    received_chunks = length updated.received_chunks;
    total_chunks = updated.total_chunks;
    complete = complete;
  }),
  record s {
    emitted = s.emitted ++ chunk_received updated (length updated.received_chunks) complete ∷ [];
  },
)

-- The branch of the last chunk.
unfoldable pub finish_complete :
    Env → UploadSession → Api → Result TransferError AcceptChunkResult × Api
unfolding announce
finish_complete env updated s =
    let (assembled, objects) =
      assemble env.put_file_fails env.remove_chunk_fails updated s.objects in
    elim assembled [
      | err e ↦ (err e, record s { objects = objects })
      | ok _ ↦
          announce updated true (record s {
            sessions = delete_session updated.transfer_id s.sessions;
            objects = objects;
          })
    ]

-- With the last chunk in, the object is assembled and the session dropped; a failed assembly
-- leaves the session.
unfoldable pub finish : Env → UploadSession → Api → Result TransferError AcceptChunkResult × Api
unfolding announce finish_complete
finish env updated s =
    if length updated.received_chunks == updated.total_chunks
    then finish_complete env updated s
    else announce updated false s

-- The chunk is stored, then marked as received.
unfoldable pub store_chunk :
    Env → AcceptChunkInput → UploadSession → Api → Result TransferError AcceptChunkResult × Api
unfolding finish
store_chunk env input session s =
    if env.put_chunk_fails
    then (err storage_failure, s)
    else let objects =
        put_object (chunk_object_key session.room_id session.transfer_id input.chunk_index)
          input.chunk s.objects in
      let (marked, sessions) = mark_received session.transfer_id input.chunk_index s.sessions in
      elim marked [
        | err e ↦ (err e, record s { objects = objects })
        | ok updated ↦ finish env updated (record s { objects = objects; sessions = sessions })
      ]

unfoldable pub accept_chunk :
    Env → ℕ → AcceptChunkInput → Api → Result TransferError AcceptChunkResult × Api
unfolding session_for store_chunk
accept_chunk env max_file_size_bytes input s =
    let (resolved, s') = session_for env max_file_size_bytes input s in
    elim resolved [
      | err e ↦ (err e, s')
      | ok session ↦
          elim (validate_chunk (record {
            file_size_bytes = session.file_size_bytes;
            total_chunks = session.total_chunks;
            chunk_index = input.chunk_index;
            byte_length = length input.chunk;
          })) [ err e ↦ (err e, s') | ok _ ↦ store_chunk env input session s' ]
    ]
