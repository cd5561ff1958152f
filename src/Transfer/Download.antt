-- ===== src/Transfer/Download.antt =====
-- apps/api/src/transfer/transfer-download.service.ts: a download, which follows the upload while it
-- is under way. What the generator meets is a list of observations, one for each turn of its loop:
-- the sessions and the objects when it asks for them, and whether storage fails then. The waits
-- between turns are left out.
pub mod Follows
use synxor.Common.{
  ℕ, ◌+◌, ◌*◌, Bool, true, false, not, has, ◌==◌, if◌then◌else◌, Option, none, some, List, [], ◌∷◌,
  ◌++◌, Text, Result, ok, err,
}
use synxor.Storage.Key.{ObjectKey, chunk_object_key}
use synxor.Storage.Objects.{Bytes, Objects, get_object}
use synxor.Transfer.Chunking.{chunk_size_bytes}
use synxor.Transfer.Entity.{Transfer, FilePayload}
use synxor.Transfer.Errors.{
  TransferError, upload_session_not_found, upload_room_mismatch, object_not_found, storage_failure,
}
use synxor.Transfer.Repository.{TransferRepository, find_by_id, find_file_payload_by_transfer_id}
use synxor.Transfer.Sessions.{Sessions, UploadSession, get}

pub record Observation : Type 0 where
  pub sessions : Sessions
  pub objects : Objects
  pub fails : Bool

-- How a stream stands after the observed turns: it has ended, it has failed, or it goes on.
pub data Ending : Type 0 where
  complete waiting : Ending
  broken : TransferError → Ending

pub data Fetched : Type 0 where
  found : Bytes → Fetched
  missing failing : Fetched

-- `getObject` at one observation.
abbrev pub fetch : ObjectKey → ℕ → Observation → Fetched
fetch k offset o =
    if o.fails
    then failing
    else elim (get_object k offset o.objects) [ none ↦ missing | some bytes ↦ found bytes ]

-- The end of the stream: the assembled object from where the chunks stopped.
unfoldable pub follow_rest : ObjectKey → ℕ → Observation → Bytes × Ending
follow_rest storage_key i o = elim (fetch storage_key (i * chunk_size_bytes) o) [
  | found rest ↦ (rest, complete)
  | missing ↦ ([], broken object_not_found)
  | failing ↦ ([], broken storage_failure)
]

-- The loop of `followUpload` from chunk `i` on: the bytes that it yields.
unfoldable pub follow_upload : ℕ → ℕ → ObjectKey → List Observation → ℕ → Bytes × Ending
unfolding follow_rest
follow_upload transfer_id room_id storage_key [] i = ([], waiting)
follow_upload transfer_id room_id storage_key (o ∷ os) i =
    let again = follow_upload transfer_id room_id storage_key os i in
    let (later, ending) = follow_upload transfer_id room_id storage_key os (i + 1) in
    elim (get transfer_id o.sessions) [
      | none ↦ follow_rest storage_key i o
      | some session ↦
          if has i session.received_chunks
          then elim (fetch (chunk_object_key room_id transfer_id i) 0 o) [
            | missing ↦ again
            | failing ↦ ([], broken storage_failure)
            | found chunk ↦
                if i + 1 == session.total_chunks
                then (chunk, complete)
                else (chunk ++ later, ending)
          ]
          else again
    ]

-- The stream of a download: the one that follows an upload, or the object.
pub data Stream : Type 0 where
  following : ObjectKey → Stream
  stored : Bytes → Stream

pub record TransferDownload : Type 0 where
  pub file_name : Text
  pub file_size_bytes : ℕ
  pub mime_type : Text
  pub stream : Stream

abbrev in_room : ℕ → Option Transfer → Bool
in_room room none = false
in_room room (some t) = t.room_id == room

abbrev download_of : FilePayload → Stream → TransferDownload
download_of p stream = record {
  file_name = p.file_name;
  file_size_bytes = p.file_size_bytes;
  mime_type = p.mime_type;
  stream = stream;
}

unfoldable pub open_download :
    ℕ → ℕ → TransferRepository → Observation → Result TransferError TransferDownload
open_download transfer_id room_id r o = elim (find_file_payload_by_transfer_id transfer_id r) [
  | none ↦ err (upload_session_not_found transfer_id)
  | some payload ↦
      if in_room room_id (find_by_id transfer_id r)
      then elim (get transfer_id o.sessions) [
        | some session ↦ ok (download_of payload (following payload.storage_key))
        | none ↦ elim (fetch payload.storage_key 0 o) [
          | found bytes ↦ ok (download_of payload (stored bytes))
          | missing ↦ err object_not_found
          | failing ↦ err storage_failure
        ]
      ]
      else err (upload_room_mismatch transfer_id)
]
