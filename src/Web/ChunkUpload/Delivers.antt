-- ===== src/Web/ChunkUpload/Delivers.antt =====
-- The client of apps/web/src/features/room/services/chunk-upload.service.ts against the upload
-- route of apps/api/src/transfer/chunked-upload.service.ts.
use synxor.Common.{
  ℕ, zero, suc, ◌+◌, ◌≤◌, ◌<◌, ◌≡◌, refl, true, false, Option, none, some, List, [], ◌∷◌, length,
  has, length-add, All, Text, ok, arith,
}
use synxor.Transfer.Chunking.{chunk_size_bytes}
use synxor.Transfer.Chunking.Slices.{slice, length-slice}
use synxor.Transfer.Http.{
  ChunkRequest, TokenClaims, Response, created, failed, chunk_upload_schema, service_input, respond,
  upload_chunk,
}
use synxor.Transfer.Sessions.{UploadSession, max_concurrent_transfers_per_room}
use synxor.Transfer.Sessions.Cap.{in_flight}
use synxor.Transfer.Sessions.Received.{marked, add-All}
use synxor.Transfer.Upload.State.{Api, Env, AcceptChunkInput, AcceptChunkResult}
use synxor.Transfer.Upload.Open.{open_session, session_input}
use synxor.Transfer.Upload.Accept.{accept_chunk}
use synxor.Transfer.Upload.Complete.{
  IsTotal, Receives, IsQuiet, Carries, answer, IsDelivered, accept_chunk_more, accept_chunk_last,
}
use synxor.Transfer.Upload.First.{Opens, opened, accept_chunk-open, open_session-Receives}
use synxor.Web.ChunkUpload.{
  File, Fetched, answered, total_for, request_for, upload_from, upload_file_in_chunks,
}

-- The route's answer as the client's `fetch` sees it: NestJS answers a POST with 201.
abbrev pub to_fetched : Response × Api → Fetched × Api
to_fetched (created r, s) = (answered 201 (some r), s)
to_fetched (failed status, s) = (answered status none, s)

-- `fetch` over the route, with the environment of each chunk's request.
abbrev pub route : (ℕ → Env) → ℕ → TokenClaims → Text → ChunkRequest → Api → Fetched × Api
route env max claims token_hash r s =
    to_fetched (upload_chunk (env r.chunk_index) max claims token_hash r s)

has_of_All : (i : ℕ) (ms : List ℕ) → All (λ j. j < i) ms → has i ms ≡ false
has_of_All i [] h = refl
has_of_All i (m ∷ ms) h = ground (arith, has_of_All i ms h.1)

All-mono : (i : ℕ) (ms : List ℕ) → All (λ j. j < i) ms → All (λ j. j < i + 1) ms
All-mono i [] h = tt
All-mono i (m ∷ ms) h = (omega arith, All-mono i ms h.1)

total_for-IsTotal : (f : File) → 0 < length f.bytes → IsTotal f.bytes (total_for f)
unfolding total_for
total_for-IsTotal f h = record { not_empty = h; covers = omega arith; least = omega arith }

-- The session has exactly the first chunks of the file.
record IsAt (f : File) (claims : TokenClaims) (t i : ℕ) (m : UploadSession) (s : Api) : Type 0 where
  receives : Receives f.bytes t m s
  room : m.room_id ≡ claims.room_id
  total : m.total_chunks ≡ total_for f
  prefix : All (λ j. j < i) m.received_chunks
  count : length m.received_chunks ≡ i

module _ (env : ℕ → Env) (max : ℕ) (claims : TokenClaims) (token_hash : Text) (f : File)
    (quiet : (i : ℕ) → IsQuiet (env i))
    (valid : chunk_upload_schema (request_for f none 0) ≡ true) where
  -- What the service is asked for chunk `i`.
  chunk_input : Option ℕ → ℕ → AcceptChunkInput
  chunk_input t i =
      service_input claims token_hash (request_for f t i) (slice chunk_size_bytes i f.bytes)

  route-accept_chunk :
      (t : Option ℕ) (i : ℕ) (s : Api)
      → route env max claims token_hash (request_for f t i) s
        ≡ to_fetched (respond (accept_chunk (env i) max (chunk_input t i) s))
  unfolding request_for upload_chunk chunk_input chunk_upload_schema
  route-accept_chunk t i s = ground (arith, valid, length-slice chunk_size_bytes i f.bytes)

  Carries-chunk_input :
      (t i : ℕ) (m : UploadSession) (s : Api)
      → IsAt f claims t i m s
      → i < total_for f
      → Carries f.bytes t i m (chunk_input (some t) i)
  unfolding chunk_input request_for
  Carries-chunk_input t i m s h lt = record {
    resumes = refl;
    room = ground (arith, h.room);
    index = refl;
    in_range = ground (arith, h.total);
    part = refl;
  }

  length-marked :
      (t i : ℕ) (m : UploadSession) (s : Api)
      → IsAt f claims t i m s
      → length (marked i m).received_chunks ≡ i + 1
  length-marked t i m s h =
      ground
        (arith, length-add i m.received_chunks, has_of_All i m.received_chunks h.prefix, h.count)

  accept_chunk-IsAt :
      (t i : ℕ) (m : UploadSession) (s : Api)
      → IsAt f claims t i m s
      → i + 1 < total_for f
      → let (r, s') = accept_chunk (env i) max (chunk_input (some t) i) s in
        (r ≡ ok (answer (marked i m) false)) × IsAt f claims t (i + 1) (marked i m) s'
  accept_chunk-IsAt t i m s h lt =
      let step =
        accept_chunk_more (env i) max f.bytes t i m s (chunk_input (some t) i) (quiet i) h.receives
          (Carries-chunk_input t i m s h (omega arith))
          (ground (arith, length-marked t i m s h, h.total)) in
      (
        step.0,
        record {
          receives = step.1;
          room = h.room;
          total = h.total;
          prefix =
              add-All (i + 1) i m.received_chunks (omega arith)
                (All-mono i m.received_chunks h.prefix);
          count = length-marked t i m s h;
        },
      )

  accept_chunk-IsDelivered :
      (t i : ℕ) (m : UploadSession) (s : Api)
      → IsAt f claims t i m s
      → i + 1 ≡ total_for f
      → let (r, s') = accept_chunk (env i) max (chunk_input (some t) i) s in
        (r ≡ ok (answer (marked i m) true)) × IsDelivered f.bytes claims.room_id (total_for f) t s'
  accept_chunk-IsDelivered t i m s h e =
      simp (← h.room, ← h.total)
        (accept_chunk_last (env i) max f.bytes t i m s (chunk_input (some t) i) (quiet i) h.receives
          (Carries-chunk_input t i m s h (omega arith))
          (ground (arith, length-marked t i m s h, h.total)))

  -- The answer to the last chunk.
  whole_answer : ℕ → AcceptChunkResult
  whole_answer t = record {
    transfer_id = t;
    received_chunks = total_for f;
    total_chunks = total_for f;
    complete = true;
  }

  last-whole :
      (t i : ℕ) (m : UploadSession) (s : Api)
      → IsAt f claims t i m s
      → i + 1 ≡ total_for f
      → answer (marked i m) true ≡ whole_answer t
  unfolding whole_answer
  last-whole t i m s h e = ground (arith, length-marked t i m s h, h.total, h.receives.own)

  upload_from-IsDelivered :
      (n t i : ℕ) (m : UploadSession) (last : Option AcceptChunkResult) (s : Api)
      → IsAt f claims t i m s
      → i + suc n ≡ total_for f
      → let (r, _, s') =
          upload_from (route env max claims token_hash) f (suc n) i (some t) last s in
        (r ≡ ok (some (whole_answer t))) × IsDelivered f.bytes claims.room_id (total_for f) t s'
  unfolding upload_from
  upload_from-IsDelivered zero t i m last s h e = ground (
    arith,
    route-accept_chunk (some t) i s,
    accept_chunk-IsDelivered t i m s h (omega arith),
    last-whole t i m s h (omega arith),
  )
  upload_from-IsDelivered (suc n) t i m last s h e =
      let s' = (accept_chunk (env i) max (chunk_input (some t) i) s).1 in
      let step = accept_chunk-IsAt t i m s h (omega arith) in
      ground (
        arith,
        route-accept_chunk (some t) i s,
        step.0,
        h.receives.own,
        upload_from-IsDelivered n t (i + 1) (marked i m) (some (answer (marked i m) false)) s'
            step.1 (omega arith),
      )

  module _ (s : Api) (not_empty : 0 < length f.bytes) (fits : length f.bytes ≤ max)
      (slot : in_flight claims.room_id s.sessions < max_concurrent_transfers_per_room) where
    -- The state once the first request has opened the upload, and the upload's id.
    opened_state : Api
    opened_state = (open_session (env 0) max (chunk_input none 0) s).1

    first-Opens : Opens max f.bytes (chunk_input none 0) s
    unfolding chunk_input request_for
    first-Opens = record {
      starts = record { first = refl; fits = fits; slot = slot };
      sized = refl;
      total = total_for-IsTotal f not_empty;
    }

    opened-IsAt :
        IsAt f claims (env 0).random_uuid 0 (opened (env 0) (chunk_input none 0) s) opened_state
    unfolding opened_state chunk_input request_for session_input
    opened-IsAt = record {
      receives =
          open_session-Receives (env 0) max f.bytes s (chunk_input none 0) (quiet 0) first-Opens;
      room = refl;
      total = refl;
      prefix = tt;
      count = refl;
    }

    first-resumes :
        accept_chunk (env 0) max (chunk_input none 0) s
        ≡ accept_chunk (env 0) max (chunk_input (some (env 0).random_uuid) 0) opened_state
    unfolding opened_state chunk_input request_for
    first-resumes =
        accept_chunk-open (env 0) max f.bytes s (chunk_input none 0) (quiet 0) first-Opens

    upload_from-first :
        (n : ℕ)
        → upload_from (route env max claims token_hash) f (suc n) 0 none none s
          ≡ upload_from
              (route env max claims token_hash)
              f
              (suc n)
              0
              (some (env 0).random_uuid)
              none
              opened_state
    unfolding upload_from
    upload_from-first n = ground (
      arith,
      route-accept_chunk none 0 s,
      route-accept_chunk (some (env 0).random_uuid) 0 opened_state,
      first-resumes,
    )

    upload_from_start :
        (k : ℕ)
        → 0 < k
        → k ≡ total_for f
        → let (r, _, s') = upload_from (route env max claims token_hash) f k 0 none none s in
          (r ≡ ok (some (whole_answer (env 0).random_uuid)))
          × IsDelivered f.bytes claims.room_id (total_for f) (env 0).random_uuid s'
    upload_from_start zero h e = absurd (omega arith)
    upload_from_start (suc n) h e = rw (upload_from-first n) (
        upload_from-IsDelivered n (env 0).random_uuid 0 _ none opened_state opened-IsAt
          (omega arith))

    total_for_pos : 0 < total_for f
    unfolding total_for
    total_for_pos = omega arith

    -- A file that is not empty and within the size limit, with a name and a type that the request
    -- schema admits, sent to a Room with a free slot while neither storage nor the database fails,
    -- arrives: the client gets the answer that the upload
    -- is complete with all its chunks, and then the object under the Transfer's final key is the
    -- file, while its chunk objects and its session are gone.
    pub upload_file_in_chunks-IsDelivered :
        let (r, _, s') = upload_file_in_chunks (route env max claims token_hash) f s in
        (r
          ≡ ok (
              some (record {
                transfer_id = (env 0).random_uuid;
                received_chunks = total_for f;
                total_chunks = total_for f;
                complete = true;
              })))
        × IsDelivered f.bytes claims.room_id (total_for f) (env 0).random_uuid s'
    unfolding upload_file_in_chunks whole_answer
    upload_file_in_chunks-IsDelivered = upload_from_start (total_for f) total_for_pos refl
