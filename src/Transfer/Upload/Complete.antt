-- ===== src/Transfer/Upload/Complete.antt =====
-- Uploads that succeed: what one chunk of a content does to a session that is receiving it.
use synxor.Common.{
  ℕ, ◌+◌, ◌*◌, ◌≤◌, ◌<◌, ◌≡◌, ◌≢◌, Bool, true, false, none, some, arith, has, has-add, length, All,
  IsDistinct, add-IsDistinct, ok,
}
use synxor.Storage.Key.{ObjectKey, file_object_key, chunk_object_key}
use synxor.Storage.Objects.{Bytes, put_object, get_object, get_object-put_object}
use synxor.Transfer.Assembler.{assemble}
use synxor.Transfer.Assembler.Laws.{HoldsParts, assembled, assemble_lem}
use synxor.Transfer.Chunking.{chunk_size_bytes, validate_chunk}
use synxor.Transfer.Chunking.Laws.{validate_chunk_iff}
use synxor.Transfer.Chunking.Slices.{slice, length-slice}
use synxor.Transfer.Sessions.{UploadSession, get, mark_received}
use synxor.Transfer.Sessions.Received.{
  marked, mark_received-get, get-delete_session, has_of_length, add-All,
}
use synxor.Transfer.Upload.State.{Api, Env, AcceptChunkInput, AcceptChunkResult}
use synxor.Transfer.Upload.Open.{session_for, resume_session}
use synxor.Transfer.Upload.Accept.{finish, store_chunk, accept_chunk}

-- The number of chunks that covers a content.
pub record IsTotal (content : Bytes) (total : ℕ) : Type 0 where
  pub not_empty : 0 < length content
  pub covers : length content ≤ total * chunk_size_bytes
  pub least : total * chunk_size_bytes < length content + chunk_size_bytes

-- The Transfer's session is receiving this content: its size and total are the content's, and each
-- chunk that is marked as received is stored with its part of the content.
pub record Receives (content : Bytes) (t : ℕ) (m : UploadSession) (s : Api) : Type 0 where
  pub found : get t s.sessions ≡ some m
  pub own : m.transfer_id ≡ t
  pub sized : m.file_size_bytes ≡ length content
  pub total : IsTotal content m.total_chunks
  pub distinct : IsDistinct m.received_chunks
  pub below : All (λ i. i < m.total_chunks) m.received_chunks
  pub stored :
      (i : ℕ)
      → has i m.received_chunks ≡ true
      → get_object (chunk_object_key m.room_id t i) 0 s.objects
        ≡ some (slice chunk_size_bytes i content)

-- Neither storage nor the database fails during the request.
pub record IsQuiet (env : Env) : Type 0 where
  pub creates : env.create_fails ≡ false
  pub creates_file_payload : env.create_file_payload_fails ≡ false
  pub puts_chunk : env.put_chunk_fails ≡ false
  pub puts_file : env.put_file_fails ≡ false
  pub removes : (i : ℕ) → env.remove_chunk_fails i ≡ false

validate_chunk-slice :
    (content : Bytes) (total i : ℕ)
    → IsTotal content total
    → i < total
    → validate_chunk (record {
      file_size_bytes = length content;
      total_chunks = total;
      chunk_index = i;
      byte_length = length (slice chunk_size_bytes i content);
    })
      ≡ ok tt
validate_chunk-slice content total i h lt = (validate_chunk_iff _).1 (record {
  not_empty = h.not_empty;
  covers = h.covers;
  least = h.least;
  in_range = lt;
  part = length-slice chunk_size_bytes i content;
})

-- The request that carries chunk `i` of the content for an upload under way.
pub record Carries (content : Bytes) (t i : ℕ) (m : UploadSession) (input : AcceptChunkInput)
    : Type 0 where
  pub resumes : input.transfer_id ≡ some t
  pub room : input.room_id ≡ m.room_id
  pub index : input.chunk_index ≡ i
  pub in_range : i < m.total_chunks
  pub part : input.chunk ≡ slice chunk_size_bytes i content

-- The state once the chunk is stored and marked.
abbrev pub with_chunk : ℕ → ℕ → UploadSession → AcceptChunkInput → Api → Api
with_chunk t i m input s = record s {
  objects = put_object (chunk_object_key m.room_id t i) input.chunk s.objects;
  sessions = (mark_received t i s.sessions).1;
}

module _ (env : Env) (max : ℕ) (content : Bytes) (t i : ℕ) (m : UploadSession) (s : Api)
    (input : AcceptChunkInput) (quiet : IsQuiet env) (receives : Receives content t m s)
    (carries : Carries content t i m input) where
  -- The request passes its checks and reaches the end of the upload with the chunk in place.
  accept_chunk-finish :
      accept_chunk env max input s ≡ finish env (marked i m) (with_chunk t i m input s)
  unfolding accept_chunk store_chunk session_for resume_session
  accept_chunk-finish = ground (
    arith,
    validate_chunk-slice content m.total_chunks i receives.total carries.in_range,
    mark_received-get t i t m s.sessions receives.found,
  )

  with_chunk-Receives : Receives content t (marked i m) (with_chunk t i m input s)
  with_chunk-Receives = record {
    found = ground (arith, mark_received-get t i t m s.sessions receives.found);
    own = receives.own;
    sized = receives.sized;
    total = receives.total;
    distinct = add-IsDistinct i m.received_chunks receives.distinct;
    below = add-All m.total_chunks i m.received_chunks carries.in_range receives.below;
    stored = λ j h. ground (
      arith,
      has-add i j m.received_chunks,
      receives.stored j,
      get_object-put_object (chunk_object_key m.room_id t i) (chunk_object_key m.room_id t j)
          input.chunk s.objects,
      carries.part,
    );
  }

-- The answer about a session.
abbrev pub answer : UploadSession → Bool → AcceptChunkResult
answer m complete = record {
  transfer_id = m.transfer_id;
  received_chunks = length m.received_chunks;
  total_chunks = m.total_chunks;
  complete = complete;
}

-- The upload is over: the object under its final key is the content, its chunk objects are gone,
-- and so is its session.
pub record IsDelivered (content : Bytes) (room total t : ℕ) (s : Api) : Type 0 where
  pub whole : get_object (file_object_key room t) 0 s.objects ≡ some content
  pub disposed : (i : ℕ) → i < total → get_object (chunk_object_key room t i) 0 s.objects ≡ none
  pub released : get t s.sessions ≡ none

module _ (env : Env) (content : Bytes) (t : ℕ) (m : UploadSession) (s : Api) (quiet : IsQuiet env)
    (receives : Receives content t m s) where
  finish_more :
      length m.received_chunks ≢ m.total_chunks
      → ((finish env m s).0 ≡ ok (answer m false)) × Receives content t m (finish env m s).1
  unfolding finish
  finish_more h = ground (arith, receives)

  holds_parts :
      length m.received_chunks ≡ m.total_chunks
      → HoldsParts chunk_size_bytes m.room_id m.transfer_id 0 m.total_chunks content s.objects
  holds_parts e j low high = rw receives.own (
      receives.stored j (
        has_of_length m.total_chunks j m.received_chunks receives.distinct receives.below e
          (omega arith)))

  assemble_now :
      length m.received_chunks ≡ m.total_chunks
      → (k : ObjectKey)
      → let (r, o') = assemble env.put_file_fails env.remove_chunk_fails m s.objects in
        (r ≡ ok tt) × (get_object k 0 o' ≡ assembled m content s.objects k)
  assemble_now e k = rw quiet.puts_file (
      assemble_lem chunk_size_bytes env.remove_chunk_fails m content s.objects (holds_parts e)
        receives.total.covers quiet.removes k)

  finish_last :
      length m.received_chunks ≡ m.total_chunks
      → ((finish env m s).0 ≡ ok (answer m true))
        × IsDelivered content m.room_id m.total_chunks t (finish env m s).1
  unfolding finish
  finish_last e = (
    ground (arith, assemble_now e (file_object_key m.room_id t)),
    record {
      whole = ground (arith, assemble_now e (file_object_key m.room_id t), receives.own);
      disposed =
          λ i h. ground (arith, assemble_now e (chunk_object_key m.room_id t i), receives.own);
      released = ground (
        arith,
        assemble_now e (file_object_key m.room_id t),
        receives.own,
        get-delete_session m.transfer_id t s.sessions,
      );
    },
  )

module _ (env : Env) (max : ℕ) (content : Bytes) (t i : ℕ) (m : UploadSession) (s : Api)
    (input : AcceptChunkInput) where
  -- While nothing fails in storage or the database, a chunk of the content, sent to a session
  -- that is receiving it, that does not make the set of received chunks whole is answered with
  -- the progress, and the session goes on receiving the content with that chunk marked.
  pub accept_chunk_more :
      IsQuiet env
      → Receives content t m s
      → Carries content t i m input
      → length (marked i m).received_chunks ≢ m.total_chunks
      → let (r, s') = accept_chunk env max input s in
        (r ≡ ok (answer (marked i m) false)) × Receives content t (marked i m) s'
  accept_chunk_more quiet receives carries h =
      rw (accept_chunk-finish env max content t i m s input quiet receives carries) (
        finish_more env content t (marked i m) (with_chunk t i m input s) quiet
          (with_chunk-Receives env max content t i m s input quiet receives carries) h)

  -- While nothing fails in storage or the database, the chunk of the content that makes the
  -- received chunks of its session whole completes the upload: the object under the final key is
  -- the content, and the chunk objects and the session are gone.
  pub accept_chunk_last :
      IsQuiet env
      → Receives content t m s
      → Carries content t i m input
      → length (marked i m).received_chunks ≡ m.total_chunks
      → let (r, s') = accept_chunk env max input s in
        (r ≡ ok (answer (marked i m) true)) × IsDelivered content m.room_id m.total_chunks t s'
  accept_chunk_last quiet receives carries h =
      rw (accept_chunk-finish env max content t i m s input quiet receives carries) (
        finish_last env content t (marked i m) (with_chunk t i m input s) quiet
          (with_chunk-Receives env max content t i m s input quiet receives carries) h)
