-- ===== src/Transfer/Assembler/Laws.antt =====
-- What assembly makes of stored chunks.
use synxor.Common.{
  ℕ, zero, suc, ◌+◌, ◌*◌, ◌≤◌, ◌<◌, ◌≡◌, refl, ap, ◌∙◌, Bool, false, ◌&&◌, ltb, ◌==◌, if◌then◌else◌,
  Option, none, some, ok, arith, length,
}
use synxor.Storage.Key.{ObjectKey, file_object_key, chunk_object_key}
use synxor.Storage.Objects.{
  Bytes, Objects, put_object, get_object, get_object-put_object, get_object-remove_object,
}
use synxor.Transfer.Chunking.Slices.{slice, join, join_all}
use synxor.Transfer.Sessions.{UploadSession}
use synxor.Transfer.Assembler.{read_chunks_in_order, remove_chunks, assemble}

-- The chunks from `from` up to `from + n` are stored and are the parts of the content.
abbrev pub HoldsParts : ℕ → ℕ → ℕ → ℕ → ℕ → Bytes → Objects → Type 0
HoldsParts size room transfer from n content o =
    (i : ℕ)
    → from ≤ i
    → i < from + n
    → get_object (chunk_object_key room transfer i) 0 o ≡ some (slice size i content)

read_chunks_in_order-eq-join :
    (size room transfer from n : ℕ) (content : Bytes) (o : Objects)
    → HoldsParts size room transfer from n content o
    → read_chunks_in_order room transfer from n o ≡ some (join size from n content)
unfolding read_chunks_in_order join
read_chunks_in_order-eq-join size room transfer from zero content o h = refl
read_chunks_in_order-eq-join size room transfer from (suc n) content o h = ground (
  arith,
  h from (omega arith) (omega arith),
  read_chunks_in_order-eq-join size room transfer (from + 1) n content o
      (λ i a b. h i (omega arith) (omega arith)),
)

-- Where no removal fails, the removed chunks are gone and every other object is as it was.
abbrev is_removed : ℕ → ℕ → ℕ → ObjectKey → Bool
is_removed room transfer n (file_object_key r t) = false
is_removed room transfer n (chunk_object_key r t i) = r == room && t == transfer && ltb i n

remove_chunks_lem :
    (fails : ℕ → Bool) (room transfer n : ℕ) (k : ObjectKey) (o : Objects)
    → ((i : ℕ) → fails i ≡ false)
    → ((remove_chunks fails room transfer n o).0 ≡ false)
      × (get_object k 0 (remove_chunks fails room transfer n o).1
          ≡ (if is_removed room transfer n k then none else get_object k 0 o))
unfolding remove_chunks
remove_chunks_lem fails room transfer zero (file_object_key r t) o h = (refl, refl)
remove_chunks_lem fails room transfer zero (chunk_object_key r t i) o h = (refl, ground arith)
remove_chunks_lem fails room transfer (suc n) (file_object_key r t) o h = ground (
  arith,
  h n,
  remove_chunks_lem fails room transfer n (file_object_key r t) o h,
  get_object-remove_object (chunk_object_key room transfer n) (file_object_key r t)
      (remove_chunks fails room transfer n o).1,
)
remove_chunks_lem fails room transfer (suc n) (chunk_object_key r t i) o h = ground (
  arith,
  h n,
  remove_chunks_lem fails room transfer n (chunk_object_key r t i) o h,
  get_object-remove_object (chunk_object_key room transfer n) (chunk_object_key r t i)
      (remove_chunks fails room transfer n o).1,
)

-- The object under a key after a successful assembly of the content.
abbrev pub assembled : UploadSession → Bytes → Objects → ObjectKey → Option Bytes
assembled session content o (file_object_key r t) =
    if r == session.room_id && t == session.transfer_id
    then some content
    else get_object (file_object_key r t) 0 o
assembled session content o (chunk_object_key r t i) =
    if r == session.room_id && t == session.transfer_id && ltb i session.total_chunks
    then none
    else get_object (chunk_object_key r t i) 0 o

module _ (size : ℕ) (fails : ℕ → Bool) (session : UploadSession) (content : Bytes) (o : Objects)
    (holds : HoldsParts size session.room_id session.transfer_id 0 session.total_chunks content o)
    (covers : length content ≤ session.total_chunks * size)
    (quiet : (i : ℕ) → fails i ≡ false) where
  open session use {room_id, transfer_id, total_chunks}

  read_whole : read_chunks_in_order room_id transfer_id 0 total_chunks o ≡ some content
  read_whole =
      read_chunks_in_order-eq-join size room_id transfer_id 0 total_chunks content o holds
      ∙ ap some (join_all size total_chunks content covers)

  -- When the chunk objects below the session's total are the parts of a content that they cover
  -- and storage does not fail, assembly succeeds: the final object is the content, the upload's
  -- chunk objects are gone, and all other objects are untouched.
  pub assemble_lem :
      (k : ObjectKey)
      → let (r, o') = assemble false fails session o in
        (r ≡ ok tt) × (get_object k 0 o' ≡ assembled session content o k)
  unfolding assemble
  assemble_lem (file_object_key r t) =
      let f = file_object_key room_id transfer_id in
      ground (
        arith,
        read_whole,
        get_object-put_object f (file_object_key r t) content o,
        remove_chunks_lem fails room_id transfer_id total_chunks (file_object_key r t)
            (put_object f content o) quiet,
      )
  assemble_lem (chunk_object_key r t i) =
      let f = file_object_key room_id transfer_id in
      ground (
        arith,
        read_whole,
        get_object-put_object f (chunk_object_key r t i) content o,
        remove_chunks_lem fails room_id transfer_id total_chunks (chunk_object_key r t i)
            (put_object f content o) quiet,
      )
