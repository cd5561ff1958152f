-- ===== src/Web/ChunkUpload.antt =====
-- apps/web/src/features/room/services/chunk-upload.service.ts: the client's loop over the chunks
-- of one file. The server behind `fetch` is a function on a state of its own; a file is its name,
-- type and bytes.
pub mod Delivers
use synxor.Common.{
  ℕ, zero, suc, ◌+◌, ◌*◌, ◌-◌, ◌/◌, max, ◌≡◌, Bool, true, false, ◌&&◌, ltb, leb, ◌==◌,
  if◌then◌else◌, Option, none, some, List, [], ◌∷◌, length, Text, codes, Result, ok, err,
}
use synxor.Storage.Objects.{Bytes}
use synxor.Transfer.Chunking.{chunk_size_bytes}
use synxor.Transfer.Chunking.Slices.{slice}
use synxor.Transfer.Http.{ChunkRequest}
use synxor.Transfer.Upload.State.{AcceptChunkResult}

pub record File : Type 0 where
  pub name : Text
  pub type : Text
  pub bytes : Bytes

-- What a call of `fetch` comes to: it is aborted, it fails, or an answer arrives with a status and
-- a body, which may be no JSON.
pub data Fetched : Type 0 where
  aborted unreachable : Fetched
  answered : ℕ → Option AcceptChunkResult → Fetched

pub data UploadFailure : Type 0 where
  abort_error : UploadFailure
  upload_error : Text → Option ℕ → UploadFailure

unfoldable pub message_for : ℕ → Text
message_for status =
    if status == 413
    then codes "This file exceeds the size limit."
    else if status == 409
    then codes "This Room already has 10 Transfers in flight. Wait for one to finish."
    else if status == 401
    then codes "Your Room session is no longer valid. Refresh and rejoin."
    else codes "Upload failed. Check your connection and try again."

-- `Math.max(1, Math.ceil(file.size / CHUNK_SIZE_BYTES))`
unfoldable pub total_for : File → ℕ
total_for f = max 1 ((length f.bytes + (chunk_size_bytes - 1)) / chunk_size_bytes)

abbrev mime_of : Text → Text
mime_of [] = codes "application/octet-stream"
mime_of (c ∷ s) = c ∷ s

-- The form of one chunk.
unfoldable pub request_for : File → Option ℕ → ℕ → ChunkRequest
unfolding total_for
request_for f transfer_id i = record {
  transfer_id = transfer_id;
  chunk_index = i;
  total_chunks = total_for f;
  file_name = f.name;
  file_size_bytes = length f.bytes;
  mime_type = mime_of f.type;
  chunk = some (slice chunk_size_bytes i f.bytes);
}

-- `response.ok`
abbrev pub is_ok : ℕ → Bool
is_ok status = leb 200 status && ltb status 300

-- One turn of the loop, up to `transferId = last.transferId`.
unfoldable pub read_response : Fetched → Result UploadFailure AcceptChunkResult
read_response aborted = err abort_error
read_response unreachable =
    err (upload_error (codes "Upload failed. Check your connection and try again.") none)
read_response (answered status body) =
    if is_ok status
    then elim body [
      | none ↦
          err (upload_error (codes "Upload failed. The server sent an unexpected response.") none)
      | some r ↦ ok r
    ]
    else err (upload_error (message_for status) (some status))

-- `Math.round(((chunkIndex + 1) / totalChunks) * 100)`, of the exact quotient.
unfoldable pub percent : ℕ → ℕ → ℕ
percent i total = (200 * (i + 1) + total) / (2 * total)

module _ {ℓ} {S : Type ℓ} (fetch : ChunkRequest → S → Fetched × S) (f : File) where
  -- The loop with `n` chunks to go, from chunk `i` on: the last answer, the calls of `onProgress`
  -- and the server's state. The transfer id of each answer goes into the next request.
  unfoldable pub upload_from :
      ℕ
      → ℕ
      → Option ℕ
      → Option AcceptChunkResult
      → S
      → Result UploadFailure (Option AcceptChunkResult) × List ℕ × S
  unfolding request_for read_response percent
  upload_from zero i transfer_id last s = (ok last, [], s)
  upload_from (suc n) i transfer_id last s =
      let (fetched, s') = fetch (request_for f transfer_id i) s in
      elim (read_response fetched) [
        | err e ↦ (err e, [], s')
        | ok r ↦
            let (result, progress, s'') = upload_from n (i + 1) (some r.transfer_id) (some r) s' in
            (result, percent i (total_for f) ∷ progress, s'')
      ]

  -- `uploadFileInChunks`. The last answer is there, since the loop runs at least once.
  unfoldable pub upload_file_in_chunks :
      S → Result UploadFailure (Option AcceptChunkResult) × List ℕ × S
  unfolding upload_from total_for
  upload_file_in_chunks s = upload_from (total_for f) 0 none none s
