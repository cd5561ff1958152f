-- ===== src/Room/Service/Purging.antt =====
-- Closing a Room: its files and Transfers are gone, nothing of another Room is touched, and an
-- attempt that fails can be made again.
use synxor.Common.{
  ℕ, ◌≡◌, refl, ap, sym, subst, ◌∙◌, Bool, false, ◌||◌, ◌&&◌, ◌==◌, any, filter, values, lookup,
  nat_eq, if◌then◌else◌, none, some, List, [], ◌∷◌, text_beq_iff, lookup-insert, text_eq, ok, err,
  arith,
}
use synxor.Room.Entity.{Room, closed, RoomError, room_closed}
use synxor.Room.Repository.{find_by_id, find_by_code, update_status}
use synxor.Room.World.{World}
use synxor.Room.Service.{Signer, join, remove_all, purge_room_contents, close}
use synxor.Storage.Key.{ObjectKey, key_beq}
use synxor.Storage.Objects.{Objects, get_object, remove_object, get_object-remove_object}
use synxor.Transfer.Entity.{Transfer}
use synxor.Transfer.Repository.{
  TransferRepository, find_by_room_id, storage_keys_of, list_storage_keys_by_room_id,
}
use synxor.Transfer.Repository.Purge.{IsConsistent, find_by_room_id-delete_by_room_id}

abbrev pub has_key : ObjectKey → List ObjectKey → Bool
has_key k [] = false
has_key k (j ∷ js) = key_beq k j || has_key k js

-- The key is the storage key of the Transfer's file.
abbrev pub names_key : ObjectKey → TransferRepository → Transfer → Bool
names_key k r t = elim (lookup t.id r.file_payloads) [
  | none ↦ false
  | some p ↦ key_beq k p.storage_key
]

-- Some Transfer of the Room has its file under the key.
abbrev pub is_file_of : ℕ → ObjectKey → TransferRepository → Bool
is_file_of room k r = any (λ t. t.room_id == room && names_key k r t) (values r.transfers)

has_key-storage_keys_of :
    (room : ℕ) (k : ObjectKey) (ts : List Transfer) (r : TransferRepository)
    → has_key k (storage_keys_of (filter (λ t. t.room_id == room) ts) r)
      ≡ any (λ t. t.room_id == room && names_key k r t) ts
unfolding storage_keys_of
has_key-storage_keys_of room k [] r = refl
has_key-storage_keys_of room k (t ∷ ts) r = ground (arith, has_key-storage_keys_of room k ts r)

-- `listStorageKeysByRoomId` lists the keys of the Room's files and no other.
pub has_key-list_storage_keys_by_room_id :
    (room : ℕ) (k : ObjectKey) (r : TransferRepository)
    → has_key k (list_storage_keys_by_room_id room r) ≡ is_file_of room k r
unfolding list_storage_keys_by_room_id
has_key-list_storage_keys_by_room_id room k r =
    has_key-storage_keys_of room k (values r.transfers) r

-- Removals that all work take away the listed objects and no other.
pub remove_all_lem :
    (fails : ObjectKey → Bool) (k : ObjectKey) (ks : List ObjectKey) (o : Objects)
    → ((j : ObjectKey) → fails j ≡ false)
    → ((remove_all fails ks o).0 ≡ false)
      × (get_object k 0 (remove_all fails ks o).1
          ≡ (if has_key k ks then none else get_object k 0 o))
unfolding remove_all
remove_all_lem fails k [] o quiet = (refl, refl)
remove_all_lem fails k (j ∷ ks) o quiet = ground (
  arith,
  quiet j,
  remove_all_lem fails k ks (remove_object j o) quiet,
  get_object-remove_object j k o,
)

-- Removals that may fail take away no other object.
remove_all_others :
    (fails : ObjectKey → Bool) (k : ObjectKey) (ks : List ObjectKey) (o : Objects)
    → has_key k ks ≡ false
    → get_object k 0 (remove_all fails ks o).1 ≡ get_object k 0 o
unfolding remove_all
remove_all_others fails k [] o h = refl
remove_all_others fails k (j ∷ ks) o h =
    ground (arith, remove_all_others fails k ks (remove_object j o), get_object-remove_object j k o)

module _ (fails : ObjectKey → Bool) (room_id : ℕ) (w : World) where
  -- What a purge that fails in storage leaves.
  close_failed_lem :
      (e : RoomError) (k : ObjectKey)
      → (purge_room_contents fails room_id w).0 ≡ err e
      → let (r, w') = close fails room_id w in
        (r ≡ err e)
        × (w'.rooms ≡ w.rooms)
        × (w'.transfers ≡ w.transfers)
        × (is_file_of room_id k w.transfers ≡ false
            → get_object k 0 w'.objects ≡ get_object k 0 w.objects)
  unfolding close purge_room_contents
  close_failed_lem e k h = (
    ground arith,
    ground arith,
    ground arith,
    λ other. ground (
      arith,
      remove_all_others fails k (list_storage_keys_by_room_id room_id w.transfers) w.objects
          (has_key-list_storage_keys_by_room_id room_id k w.transfers ∙ other),
    ),
  )

  -- When the purge fails in storage, closing the Room fails the same way and leaves the Rooms, the
  -- Transfers and every object that is no file of the Room as they were.
  pub close_failed :
      (e : RoomError) (k : ObjectKey)
      → (purge_room_contents fails room_id w).0 ≡ err e
      → is_file_of room_id k w.transfers ≡ false
      → let (r, w') = close fails room_id w in
        (r ≡ err e)
        × (w'.rooms ≡ w.rooms)
        × (w'.transfers ≡ w.transfers)
        × (get_object k 0 w'.objects ≡ get_object k 0 w.objects)
  close_failed e k h other = let l = close_failed_lem e k h in (l.0, l.1, l.2, l.3 other)

  module _ (quiet : (k : ObjectKey) → fails k ≡ false) (consistent : IsConsistent w.transfers)
      (room : Room) (found : find_by_id room_id w.rooms ≡ some room) where
    -- Where storage works, closing a Room that exists, over Transfers each stored once under its
    -- own id, succeeds: every object under the key of one of its files is gone and all others are
    -- as they were, it has no Transfers, and whoever tries to join it by its code is told that it
    -- was closed.
    pub close_lem :
        (k : ObjectKey) (sign : Signer) (now : ℕ)
        → let (r, w') = close fails room_id w in
          (r ≡ ok tt)
          × (get_object k 0 w'.objects
              ≡ (if is_file_of room_id k w.transfers then none else get_object k 0 w.objects))
          × (find_by_room_id room_id w'.transfers ≡ [])
          × (join sign now room.code w'.rooms ≡ err (room_closed room.code))
    unfolding close purge_room_contents update_status join find_by_code
    close_lem k sign now = ground (
      arith,
      found,
      remove_all_lem fails k (list_storage_keys_by_room_id room_id w.transfers) w.objects quiet,
      has_key-list_storage_keys_by_room_id room_id k w.transfers,
      find_by_room_id-delete_by_room_id room_id w.transfers consistent,
      lookup-insert room.code room.code (record room { status = closed }) w.rooms.stored,
      text_beq_iff room.code room.code,
    )

-- When an attempt to close a Room failed in storage, a second one that works (with the Room there
-- and each Transfer stored once under its own id) leaves the same objects as if the first had
-- worked, no Transfers in the Room, and the Room closed to whoever joins.
pub close_retry :
    (fails fails' : ObjectKey → Bool) (room_id : ℕ) (w : World) (room : Room) (e : RoomError)
    (k : ObjectKey) (sign : Signer) (now : ℕ)
    → (purge_room_contents fails room_id w).0 ≡ err e
    → ((j : ObjectKey) → fails' j ≡ false)
    → IsConsistent w.transfers
    → find_by_id room_id w.rooms ≡ some room
    → let (r, w') = close fails' room_id (close fails room_id w).1 in
      (r ≡ ok tt)
      × (get_object k 0 w'.objects
          ≡ (if is_file_of room_id k w.transfers then none else get_object k 0 w.objects))
      × (find_by_room_id room_id w'.transfers ≡ [])
      × (join sign now room.code w'.rooms ≡ err (room_closed room.code))
close_retry fails fails' room_id w room e k sign now failed quiet consistent found =
    let first = close_failed_lem fails room_id w e k failed in
    let w₁ = (close fails room_id w).1 in
    let again =
      close_lem fails' room_id w₁ quiet (subst IsConsistent (sym first.2) consistent) room
        (ap (find_by_id room_id) first.1 ∙ found) k sign now in
    ground (arith, first, again)
