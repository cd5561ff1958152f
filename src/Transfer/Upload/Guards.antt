-- ===== src/Transfer/Upload/Guards.antt =====
-- What the checks of an upload request keep out.
use synxor.Common.{
  ℕ, ◌≡◌, ◌≢◌, refl, ltb, ◌==◌, ==_iff, if◌then◌else◌, none, some, arith, length, Option-cases,
  Bool-cases, ◌⊎◌, inl, inr, Result, ok, err, ◌≤◌, ◌<◌,
}
use synxor.Transfer.Chunking.{ChunkShape, validate_chunk}
use synxor.Transfer.Chunking.Laws.{IsChunkOf, validate_chunk_iff}
use synxor.Transfer.Errors.{TransferError, file_too_large, concurrent_transfer_limit}
use synxor.Transfer.Sessions.{UploadSession, get, reserve, max_concurrent_transfers_per_room}
use synxor.Transfer.Sessions.Cap.{in_flight, active-in_flight}
use synxor.Transfer.Upload.State.{Api, Env, AcceptChunkInput}
use synxor.Transfer.Upload.Open.{session_for, resume_session, open_session}
use synxor.Transfer.Upload.Accept.{accept_chunk}

-- The shape of the chunk that a request carries for a session.
abbrev pub shape : UploadSession → AcceptChunkInput → ChunkShape
shape m input = record {
  file_size_bytes = m.file_size_bytes;
  total_chunks = m.total_chunks;
  chunk_index = input.chunk_index;
  byte_length = length input.chunk;
}

-- The request is for an upload under way in its own Room, and carries a chunk of the file.
pub record IsAdmissible (t : ℕ) (input : AcceptChunkInput) (s : Api) : Type 0 where
  pub session : UploadSession
  pub found : get t s.sessions ≡ some session
  pub same_room : session.room_id ≡ input.room_id
  pub is_chunk : IsChunkOf (shape session input)

validate_chunk_cases :
    (c : ChunkShape)
    → (validate_chunk c ≡ ok tt) ⊎ ((e : TransferError) × (validate_chunk c ≡ err e))
validate_chunk_cases c = go (validate_chunk c) refl
  where
    go :
        (x : Result TransferError (Unit {0}))
        → validate_chunk c ≡ x
        → (validate_chunk c ≡ ok tt) ⊎ ((e : TransferError) × (validate_chunk c ≡ err e))
    go (ok _) h = inl h
    go (err e) h = inr (e, h)

module _ (env : Env) (max t : ℕ) (input : AcceptChunkInput) (s : Api) where
  -- A request for an upload under way changes something only if that upload is in the request's own
  -- Room and the chunk has the index and the length of a chunk of its file.
  pub accept_chunk_guarded :
      input.transfer_id ≡ some t → (accept_chunk env max input s).1 ≢ s → IsAdmissible t input s
  unfolding accept_chunk session_for resume_session
  accept_chunk_guarded resumes changed = elim (Option-cases (get t s.sessions)) [
    | inl e ↦ absurd (changed (ground (arith, e, resumes)))
    | inr (m, e) ↦ elim (Bool-cases (m.room_id == input.room_id)) [
      | inr b ↦ absurd (changed (ground (arith, e, b, resumes)))
      | inl b ↦ elim (validate_chunk_cases (shape m input)) [
        | inr (x, v) ↦ absurd (changed (ground (arith, e, b, v, resumes)))
        | inl v ↦ record {
          session = m;
          found = e;
          same_room = (==_iff m.room_id input.room_id).0 b;
          is_chunk = (validate_chunk_iff (shape m input)).0 v;
        }
      ]
    ]
  ]

  -- A request that opens an upload of a file above the size limit, or in a Room with no free slot,
  -- is refused for that reason and changes nothing.
  pub accept_chunk_full :
      input.transfer_id ≡ none
      → (max < input.file_size_bytes)
        ⊎ (max_concurrent_transfers_per_room ≤ in_flight input.room_id s.sessions)
      → accept_chunk env max input s ≡ (
        err (
            if ltb max input.file_size_bytes
            then file_too_large input.file_size_bytes max
            else concurrent_transfer_limit max_concurrent_transfers_per_room),
        s,
      )
  unfolding accept_chunk session_for open_session reserve
  accept_chunk_full opens (inl h) = ground arith
  accept_chunk_full opens (inr h) = ground (arith, active-in_flight input.room_id s.sessions)
