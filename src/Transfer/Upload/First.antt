-- ===== src/Transfer/Upload/First.antt =====
-- The request that opens an upload: after the session is opened it goes on as a request for that
-- session.
use synxor.Common.{ℕ, ◌≤◌, ◌<◌, ◌≡◌, refl, false, none, some, arith, length, ok, err}
use synxor.Storage.Objects.{Bytes}
use synxor.Transfer.Sessions.{UploadSession, max_concurrent_transfers_per_room, fresh, get}
use synxor.Transfer.Sessions.Cap.{in_flight}
use synxor.Transfer.Sessions.Received.{reserve-get}
use synxor.Transfer.Errors.{TransferError}
use synxor.Transfer.Upload.State.{Api, Env, AcceptChunkInput}
use synxor.Transfer.Upload.Open.{
  resolve_author, session_input, create_rows, open_session, session_for, resume_session,
}
use synxor.Transfer.Upload.Accept.{accept_chunk}
use synxor.Transfer.Upload.Complete.{IsTotal, IsQuiet, Receives}
use synxor.Transfer.Upload.Guards.{shape}
use synxor.Transfer.Chunking.{validate_chunk}

-- The same request for a session that is open.
abbrev pub resuming : ℕ → AcceptChunkInput → AcceptChunkInput
resuming t input = record input { transfer_id = some t }

-- The session that a request opens.
abbrev pub opened : Env → AcceptChunkInput → Api → UploadSession
opened env input s =
    (fresh env.now (session_input env input (resolve_author input s.participants))).session

-- A first request within the size limit, in a Room with a free slot.
pub record Starts (max : ℕ) (input : AcceptChunkInput) (s : Api) : Type 0 where
  pub first : input.transfer_id ≡ none
  pub fits : input.file_size_bytes ≤ max
  pub slot : in_flight input.room_id s.sessions < max_concurrent_transfers_per_room

-- The request opens an upload of the content.
pub record Opens (max : ℕ) (content : Bytes) (input : AcceptChunkInput) (s : Api) : Type 0 where
  pub starts : Starts max input s
  pub sized : input.file_size_bytes ≡ length content
  pub total : IsTotal content input.total_chunks

module _ (env : Env) (max : ℕ) (s : Api) (input : AcceptChunkInput)
    (creates : env.create_fails ≡ false) (creates_file : env.create_file_payload_fails ≡ false)
    (starts : Starts max input s) where
  open_session_lem :
      let (r, s') = open_session env max input s in
      (r ≡ ok (opened env input s))
      × (get env.random_uuid s'.sessions ≡ some (opened env input s))
      × (s'.objects ≡ s.objects)
  unfolding open_session create_rows
  open_session_lem = ground (
    arith,
    starts,
    creates,
    creates_file,
    reserve-get env.now max_concurrent_transfers_per_room env.random_uuid
        (session_input env input (resolve_author input s.participants)) s.sessions,
  )

  -- When a first request is within the size limit and finds a free slot, and its rows are written,
  -- but its chunk fails the check, for whatever reason, it is refused with the check's error while
  -- the session that it opened stays. Storage may fail.
  pub accept_chunk_stranded :
      (e : TransferError)
      → validate_chunk (shape (opened env input s) input) ≡ err e
      → let (r, s') = accept_chunk env max input s in
        (r ≡ err e) × (get env.random_uuid s'.sessions ≡ some (opened env input s))
  unfolding accept_chunk session_for
  accept_chunk_stranded e h = ground (arith, starts, open_session_lem, h)

module _ (env : Env) (max : ℕ) (content : Bytes) (s : Api) (input : AcceptChunkInput)
    (quiet : IsQuiet env) (opens : Opens max content input s) where
  open_content :
      let (r, s') = open_session env max input s in
      (r ≡ ok (opened env input s))
      × (get env.random_uuid s'.sessions ≡ some (opened env input s))
      × (s'.objects ≡ s.objects)
  open_content =
      open_session_lem env max s input quiet.creates quiet.creates_file_payload opens.starts

  -- Once opened, the session is receiving the content.
  pub open_session-Receives :
      Receives content env.random_uuid (opened env input s) (open_session env max input s).1
  unfolding session_input
  open_session-Receives = record {
    found = open_content.1;
    own = refl;
    sized = opens.sized;
    total = opens.total;
    distinct = tt;
    below = tt;
    stored = λ i h. cc;
  }

  pub accept_chunk-open :
      accept_chunk env max input s
      ≡ accept_chunk env max (resuming env.random_uuid input) (open_session env max input s).1
  unfolding accept_chunk session_for resume_session
  accept_chunk-open = ground (arith, opens.starts, open_content)
