-- ===== src/Transfer/Http.antt =====
-- The HTTP side of an upload: apps/api/src/transfer/transfer.controller.ts (`uploadChunk`), the
-- request schema of apps/api/src/transfer/dto/chunk-upload.dto.ts, and the statuses of
-- apps/api/src/transfer/transfer-error.filter.ts over
-- apps/api/src/common/http/domain-error.filter.ts. The request arrives past the guards, with the
-- claims of its Room Token; the hash of the token is an argument.
use synxor.Common.{
  ℕ, ◌+◌, zero, suc, Bool, true, false, not, ◌&&◌, ◌||◌, leb, ◌==◌, if◌then◌else◌, Option, none,
  some, [], ◌∷◌, has, length, Text, codes, Result, ok, err,
}
use synxor.Participant.Entity.{ParticipantRole, sender, receiver}
use synxor.Storage.Objects.{Bytes}
use synxor.Transfer.Chunking.{chunk_size_bytes}
use synxor.Transfer.Errors.{
  TransferError, file_too_large, upload_session_not_found, upload_room_mismatch,
  concurrent_transfer_limit, chunk_total_mismatch, chunk_out_of_range, chunk_size_mismatch,
}
use synxor.Transfer.Upload.State.{Api, Env, AcceptChunkInput, AcceptChunkResult}
use synxor.Transfer.Upload.Accept.{accept_chunk}

-- apps/api/src/domain/security/token-issuer.ts
pub data TokenRole : Type 0 where
  sender_role receiver_role : TokenRole

pub record TokenClaims : Type 0 where
  pub room_id : ℕ
  pub role : TokenRole

unfoldable pub to_participant_role : TokenRole → ParticipantRole
to_participant_role sender_role = sender
to_participant_role receiver_role = receiver

-- The form fields, with the numbers coerced, and the file part.
pub record ChunkRequest : Type 0 where
  pub transfer_id : Option ℕ
  pub chunk_index : ℕ
  pub total_chunks : ℕ
  pub file_name : Text
  pub file_size_bytes : ℕ
  pub mime_type : Text
  pub chunk : Option Bytes

-- `[A-Za-z0-9!#$&^_.+-]`
pub is_token_char : ℕ → Bool
is_token_char c =
    (leb b'A' c && leb c b'Z')
    || (leb b'a' c && leb c b'z')
    || (leb b'0' c && leb c b'9')
    || has c (codes "!#$&^_.+-")

-- The longest prefix of characters that pass the test, and the rest.
pub span : (ℕ → Bool) → Text → Text × Text
span p [] = ([], [])
span p (c ∷ s) = let (a, b) = span p s in if p c then (c ∷ a, b) else ([], c ∷ s)

abbrev skip_blank : Text → Text
skip_blank [] = []
skip_blank (c ∷ s) = if c == 32 || c == 9 then s else c ∷ s

abbrev starts_value : Text → Option Text
starts_value [] = none
starts_value (c ∷ s) = if c == b'=' then some s else none

-- `(?:;[ \t]?token+=value+)*$`, where a value may hold quotes. The classes that meet are disjoint,
-- so the longest match is the only one. Each turn takes a character of the text, so its length is
-- fuel enough.
pub mime_parameters : ℕ → Text → Bool
mime_parameters fuel [] = true
mime_parameters zero (c ∷ s) = false
mime_parameters (suc fuel) (c ∷ s) =
    let (name, rest) = span is_token_char (skip_blank s) in
    elim (starts_value rest) [
      | none ↦ false
      | some s' ↦
          let (value, s'') = span (λ d. is_token_char d || d == 0x22) s' in
          c == b';' && not (length name == 0) && not (length value == 0) && mime_parameters fuel s''
    ]

-- `MIME_TYPE`
unfoldable pub is_mime_type : Text → Bool
unfolding is_token_char span mime_parameters
is_mime_type s =
    let (type, rest) = span is_token_char s in
    elim rest [
      | [] ↦ false
      | c ∷ s' ↦
          let (subtype, s'') = span is_token_char s' in
          c == b'/'
          && not (length type == 0)
          && not (length subtype == 0)
          && mime_parameters (length s'') s''
    ]

-- `chunkUploadSchema`, on the coerced fields.
unfoldable pub chunk_upload_schema : ChunkRequest → Bool
chunk_upload_schema r =
    leb 1 r.total_chunks
    && leb 1 (length r.file_name)
    && leb (length r.file_name) 1024
    && leb 1 r.file_size_bytes
    && leb 1 (length r.mime_type)
    && leb (length r.mime_type) 255
    && is_mime_type r.mime_type

pub data Response : Type 0 where
  created : AcceptChunkResult → Response
  failed : ℕ → Response

-- A domain error's status; what is no domain error is answered by the framework with 500.
unfoldable pub status_for : TransferError → ℕ
status_for (file_too_large n m) = 413
status_for (upload_session_not_found t) = 404
status_for (upload_room_mismatch t) = 403
status_for (concurrent_transfer_limit n) = 409
status_for (chunk_total_mismatch n m) = 400
status_for (chunk_out_of_range i n) = 400
status_for (chunk_size_mismatch i n m) = 400
status_for other = 500

abbrev pub respond : Result TransferError AcceptChunkResult × Api → Response × Api
respond (ok r, s) = (created r, s)
respond (err e, s) = (failed (status_for e), s)

-- What `uploadChunk` hands to the service.
abbrev pub service_input : TokenClaims → Text → ChunkRequest → Bytes → AcceptChunkInput
service_input claims token_hash r chunk = record {
  room_id = claims.room_id;
  transfer_id = r.transfer_id;
  chunk_index = r.chunk_index;
  total_chunks = r.total_chunks;
  file_name = r.file_name;
  file_size_bytes = r.file_size_bytes;
  mime_type = r.mime_type;
  chunk = chunk;
  author_token_hash = some token_hash;
  author_role = some (to_participant_role claims.role);
}

-- `FileInterceptor` runs before the body is validated: a file part that reaches the limit is refused.
abbrev pub part_too_large : Option Bytes → Bool
part_too_large none = false
part_too_large (some chunk) = leb (chunk_size_bytes + 1024) (length chunk)

-- The size of the part and the body are checked before the handler runs, which then asks for the
-- part.
unfoldable pub upload_chunk : Env → ℕ → TokenClaims → Text → ChunkRequest → Api → Response × Api
upload_chunk env max claims token_hash r s =
    if part_too_large r.chunk
    then (failed 413, s)
    else if chunk_upload_schema r
    then elim (r.chunk) [
      | none ↦ (failed 400, s)
      | some chunk ↦ respond (accept_chunk env max (service_input claims token_hash r chunk) s)
    ]
    else (failed 400, s)
