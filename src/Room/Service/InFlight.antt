-- ===== src/Room/Service/InFlight.antt =====
-- What closing a Room does to the uploads in flight there.
use synxor.Common.{
  ℕ, ◌≡◌, refl, Bool, true, false, some, List, [], ◌∷◌, length, filter, values, ◌==◌, lookup,
  nat_eq, ok, arith, Option-cases, inl, inr,
}
use synxor.Room.Entity.{Room}
use synxor.Room.Repository.{find_by_id}
use synxor.Room.World.{World}
use synxor.Room.Service.{Signer, close, purge_room_contents}
use synxor.Room.Service.Purging.{has_key-list_storage_keys_by_room_id, has_key, close_lem}
use synxor.Storage.Key.{ObjectKey, file_object_key, chunk_object_key}
use synxor.Storage.Objects.{Bytes, get_object}
use synxor.Transfer.Entity.{Transfer, FilePayload}
use synxor.Transfer.Repository.{
  TransferRepository, find_by_room_id, storage_keys_of, list_storage_keys_by_room_id,
}
use synxor.Transfer.Repository.Purge.{IsConsistent}
use synxor.Transfer.Sessions.{UploadSession}
use synxor.Transfer.Sessions.Received.{marked}
use synxor.Transfer.Upload.State.{Env, AcceptChunkInput}
use synxor.Transfer.Upload.Accept.{accept_chunk}
use synxor.Transfer.Upload.Complete.{Receives, IsQuiet, Carries, answer, accept_chunk_last}

abbrev is_file_key : ObjectKey → Bool
is_file_key (file_object_key r t) = true
is_file_key (chunk_object_key r t i) = false

-- Every FilePayload names the final object of a Transfer, as the upload service writes it.
abbrev pub HasFileKeys : TransferRepository → Type 0
HasFileKeys r =
    (id : ℕ) (p : FilePayload)
    → lookup id r.file_payloads ≡ some p
    → is_file_key p.storage_key ≡ true

has_key-chunk :
    (room t i : ℕ) (ts : List Transfer) (r : TransferRepository)
    → HasFileKeys r
    → has_key (chunk_object_key room t i) (storage_keys_of ts r) ≡ false
unfolding storage_keys_of
has_key-chunk room t i [] r h = refl
has_key-chunk room t i (x ∷ ts) r h = elim (Option-cases (lookup x.id r.file_payloads)) [
  | inl e ↦ ground (arith, e, has_key-chunk room t i ts r h)
  | inr (p, e) ↦ ground (arith, e, h x.id p e, has_key-chunk room t i ts r h)
]

close-sessions :
    (fails : ObjectKey → Bool) (room_id : ℕ) (w : World)
    → (close fails room_id w).1.sessions ≡ w.sessions
unfolding close purge_room_contents
close-sessions fails room_id w = ground arith

module _ (fails : ObjectKey → Bool) (w : World) (room : Room) (content : Bytes) (t i : ℕ)
    (m : UploadSession) (quiet_storage : (k : ObjectKey) → fails k ≡ false)
    (consistent : IsConsistent w.transfers) (file_keys : HasFileKeys w.transfers)
    (found : find_by_id m.room_id w.rooms ≡ some room) (receives : Receives content t m w.api)
    (sign : Signer) where
  -- Closing a Room leaves the uploads in flight there receiving.
  close-Receives : Receives content t m (close fails m.room_id w).1.api
  unfolding list_storage_keys_by_room_id
  close-Receives = record {
    found = ground (arith, close-sessions fails m.room_id w, receives.found);
    own = receives.own;
    sized = receives.sized;
    total = receives.total;
    distinct = receives.distinct;
    below = receives.below;
    stored = λ j h. ground (
      arith,
      receives.stored j h,
      close_lem fails m.room_id w quiet_storage consistent room found
          (chunk_object_key m.room_id t j) sign 0,
      has_key-list_storage_keys_by_room_id m.room_id (chunk_object_key m.room_id t j) w.transfers,
      has_key-chunk m.room_id t j
          (filter (λ x. x.room_id == m.room_id) (values w.transfers.transfers)) w.transfers
          file_keys,
    );
  }

  -- An upload that lacks one chunk when its Room is closed can still be completed, where nothing
  -- fails, the Transfers are stored under their own ids and the FilePayloads name final objects:
  -- the request is accepted and puts the file into storage, in a Room that has no Transfers any
  -- more.
  pub upload_survives_close :
      (env : Env) (max : ℕ) (input : AcceptChunkInput)
      → IsQuiet env
      → Carries content t i m input
      → length (marked i m).received_chunks ≡ m.total_chunks
      → let w' = (close fails m.room_id w).1 in
        let (r, s) = accept_chunk env max input w'.api in
        (r ≡ ok (answer (marked i m) true))
        × (get_object (file_object_key m.room_id t) 0 s.objects ≡ some content)
        × (find_by_room_id m.room_id w'.transfers ≡ [])
  upload_survives_close env max input quiet carries last =
      let done =
        accept_chunk_last env max content t i m (close fails m.room_id w).1.api input quiet
          close-Receives carries last in
      (
        done.0,
        done.1.whole,
        (close_lem fails m.room_id w quiet_storage consistent room found
            (file_object_key m.room_id t) sign 0).2,
      )
