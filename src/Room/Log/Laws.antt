-- ===== src/Room/Log/Laws.antt =====
-- What the Log says about deliveries, and of a Room that was closed.
use synxor.Common.{
  ℕ, ◌≡◌, refl, Bool, true, false, has, map, Option, none, some, List, [], ◌∷◌, filter, Dict,
  values, lookup, nat_eq, ok, arith, All, text_eq, text_beq_iff, lookup-insert,
}
use synxor.Participant.Entity.{Participant}
use synxor.Room.Entity.{Room, closed}
use synxor.Room.Events.{TransferAuthor}
use synxor.Room.Repository.{find_by_id, find_by_code, update_status}
use synxor.Room.Service.{purge_room_contents, close}
use synxor.Room.Service.Purging.{remove_all_lem}
use synxor.Room.World.{World}
use synxor.Storage.Key.{ObjectKey, file_object_key}
use synxor.Transfer.Repository.{list_storage_keys_by_room_id}
use synxor.Transfer.Repository.Purge.{IsConsistent, find_by_room_id-delete_by_room_id}
use synxor.Room.Log.{log_of, row_of, list_transfers}
use synxor.Transfer.Delivery.{
  Delivery, DeliveryRepository, find_by_transfer_id, find_by_transfer_ids,
}
use synxor.Transfer.Entity.{Transfer, FilePayload, TextPayload}

-- Each Delivery is stored under the id of its Transfer.
abbrev pub IsFiled : Dict ℕ Delivery → Type 0
IsFiled [] = Unit {0}
IsFiled ((t, d) ∷ rows) = (t ≡ d.transfer_id) × IsFiled rows

has-delivered :
    (t : ℕ) (ids : List ℕ) (rows : Dict ℕ Delivery)
    → IsFiled rows
    → has t ids ≡ true
    → has t (map (λ d. d.transfer_id) (filter (λ d. has d.transfer_id ids) (values rows)))
      ≡ (elim (lookup t rows) [ none ↦ false | some d ↦ true ])
has-delivered t ids [] f h = refl
has-delivered t ids ((k, d) ∷ rows) f h = ground (arith, has-delivered t ids rows f.1)

All-cons :
    (i : ℕ) (ids : List ℕ) (ts : List Transfer)
    → All (λ t. has t.id ids ≡ true) ts
    → All (λ t. has t.id (i ∷ ids) ≡ true) ts
All-cons i ids [] h = tt
All-cons i ids (t ∷ ts) h = (ground arith, All-cons i ids ts h.1)

All-has : (ts : List Transfer) → All (λ t. has t.id (map (λ x. x.id) ts) ≡ true) ts
All-has [] = tt
All-has (t ∷ ts) = (ground arith, All-cons t.id (map (λ x. x.id) ts) ts (All-has ts))

-- Whether a Delivery of the Transfer is recorded.
pub is_delivered : DeliveryRepository → Transfer → Bool
is_delivered r t = elim (find_by_transfer_id t.id r) [ none ↦ false | some d ↦ true ]

module _ (files : Dict ℕ FilePayload) (texts : Dict ℕ TextPayload) (authors : Dict ℕ Participant)
    (from_sender : Option TransferAuthor) (r : DeliveryRepository) (filed : IsFiled r.rows)
    (ids : List ℕ) where
  rows-delivered :
      (ts : List Transfer)
      → All (λ t. has t.id ids ≡ true) ts
      → map
          (λ row. row.delivered)
          (map
            (row_of files texts
              (map (λ d. d.transfer_id) (find_by_transfer_ids ids r))
              authors
              from_sender)
            ts)
        ≡ map (is_delivered r) ts
  unfolding row_of is_delivered find_by_transfer_ids find_by_transfer_id
  rows-delivered [] h = refl
  rows-delivered (t ∷ ts) h =
      ground (arith, has-delivered t.id ids r.rows filed h.0, rows-delivered ts h.1)

-- Where each Delivery is stored under the id of its Transfer, a row of the Log is marked as
-- delivered exactly when a Delivery of its Transfer is recorded.
pub log_of-delivered :
    (ts : List Transfer) (room_id : ℕ) (w : World)
    → IsFiled w.deliveries.rows
    → map (λ row. row.delivered) (log_of ts room_id w) ≡ map (is_delivered w.deliveries) ts
unfolding log_of
log_of-delivered ts room_id w filed =
    rows-delivered _ _ _ _ w.deliveries filed (map (λ t. t.id) ts) ts (All-has ts)

-- After a Room that exists was closed, over Transfers each stored once under its own id and with
-- storage working, its Log is empty.
pub list_transfers-close :
    (fails : ObjectKey → Bool) (w : World) (room : Room)
    → ((k : ObjectKey) → fails k ≡ false)
    → IsConsistent w.transfers
    → find_by_id room.id w.rooms ≡ some room
    → list_transfers room.code (close fails room.id w).1 ≡ ok []
unfolding list_transfers log_of close purge_room_contents update_status find_by_code
list_transfers-close fails w room quiet consistent found = ground (
  arith,
  found,
  remove_all_lem fails (file_object_key 0 0) (list_storage_keys_by_room_id room.id w.transfers)
      w.objects quiet,
  find_by_room_id-delete_by_room_id room.id w.transfers consistent,
  lookup-insert room.code room.code (record room { status = closed }) w.rooms.stored,
  text_beq_iff room.code room.code,
)
