-- ===== src/Transfer/Repository/Purge.antt =====
-- `deleteByRoomId` deletes the Transfers of one Room with what hangs on them, and nothing else.
use synxor.Common.{
  ℕ, ◌≡◌, refl, Bool, false, ◌&&◌, ◌||◌, ◌==◌, if◌then◌else◌, none, some, List, [], ◌∷◌, filter,
  Dict, values, lookup, lookup-erase, IsKeyed, erase-IsKeyed, nat_eq, arith,
}
use synxor.Transfer.Entity.{Transfer}
use synxor.Transfer.Repository.{
  TransferRepository, find_by_room_id, delete_by_id, delete_those_of, delete_by_room_id,
}

-- A Transfer is stored under its own id.
abbrev pub IsIndexed : Dict ℕ Transfer → Type 0
IsIndexed [] = Unit {0}
IsIndexed ((k, t) ∷ d) = (k ≡ t.id) × IsIndexed d

-- The map of Transfers has each id once, under the id of its Transfer.
pub record IsConsistent (r : TransferRepository) : Type 0 where
  pub keyed : IsKeyed r.transfers
  pub indexed : IsIndexed r.transfers

-- Whether the Transfer with this id stands in the Room.
pub belongs : ℕ → ℕ → Dict ℕ Transfer → Bool
belongs room id d = elim (lookup id d) [ none ↦ false | some t ↦ t.room_id == room ]

-- Whether the loop meets this id among the Room's Transfers.
met : ℕ → ℕ → List Transfer → Bool
met room id [] = false
met room id (t ∷ ts) = (t.room_id == room && id == t.id) || met room id ts

delete_those_of-transfers :
    (room id : ℕ) (ts : List Transfer) (r : TransferRepository)
    → lookup id (delete_those_of room ts r).transfers
      ≡ (if met room id ts then none else lookup id r.transfers)
unfolding delete_those_of met
delete_those_of-transfers room id [] r = refl
delete_those_of-transfers room id (t ∷ ts) r = ground (
  arith,
  delete_those_of-transfers room id ts r,
  delete_those_of-transfers room id ts (delete_by_id t.id r),
  lookup-erase t.id id r.transfers,
)

delete_those_of-file_payloads :
    (room id : ℕ) (ts : List Transfer) (r : TransferRepository)
    → lookup id (delete_those_of room ts r).file_payloads
      ≡ (if met room id ts then none else lookup id r.file_payloads)
unfolding delete_those_of met
delete_those_of-file_payloads room id [] r = refl
delete_those_of-file_payloads room id (t ∷ ts) r = ground (
  arith,
  delete_those_of-file_payloads room id ts r,
  delete_those_of-file_payloads room id ts (delete_by_id t.id r),
  lookup-erase t.id id r.file_payloads,
)

delete_those_of-text_payloads :
    (room id : ℕ) (ts : List Transfer) (r : TransferRepository)
    → lookup id (delete_those_of room ts r).text_payloads
      ≡ (if met room id ts then none else lookup id r.text_payloads)
unfolding delete_those_of met
delete_those_of-text_payloads room id [] r = refl
delete_those_of-text_payloads room id (t ∷ ts) r = ground (
  arith,
  delete_those_of-text_payloads room id ts r,
  delete_those_of-text_payloads room id ts (delete_by_id t.id r),
  lookup-erase t.id id r.text_payloads,
)

met-absent :
    (room id : ℕ) (d : Dict ℕ Transfer)
    → IsIndexed d
    → lookup id d ≡ none
    → met room id (values d) ≡ false
unfolding met
met-absent room id [] h e = refl
met-absent room id ((k, t) ∷ d) h e = ground (arith, met-absent room id d h.1)

met-eq-belongs :
    (room id : ℕ) (d : Dict ℕ Transfer)
    → IsKeyed d
    → IsIndexed d
    → met room id (values d) ≡ belongs room id d
unfolding met belongs
met-eq-belongs room id [] keyed indexed = refl
met-eq-belongs room id ((k, t) ∷ d) keyed indexed =
    ground (arith, met-absent room id d indexed.1, met-eq-belongs room id d keyed.1 indexed.1)

-- Over Transfers each stored once under its own id: after `deleteByRoomId` an id of the Room
-- finds no Transfer, no file and no text, and every other id finds what it found before.
pub delete_by_room_id_lem :
    (room id : ℕ) (r : TransferRepository)
    → IsConsistent r
    → let r' = delete_by_room_id room r in
      let gone = belongs room id r.transfers in
      (lookup id r'.transfers ≡ (if gone then none else lookup id r.transfers))
      × (lookup id r'.file_payloads ≡ (if gone then none else lookup id r.file_payloads))
      × (lookup id r'.text_payloads ≡ (if gone then none else lookup id r.text_payloads))
unfolding delete_by_room_id
delete_by_room_id_lem room id r h =
    let e = met-eq-belongs room id r.transfers h.keyed h.indexed in
    (
      rw (← e) (delete_those_of-transfers room id (values r.transfers) r),
      rw (← e) (delete_those_of-file_payloads room id (values r.transfers) r),
      rw (← e) (delete_those_of-text_payloads room id (values r.transfers) r),
    )

delete_those_of-IsKeyed :
    (room : ℕ) (ts : List Transfer) (r : TransferRepository)
    → IsKeyed r.transfers
    → IsKeyed (delete_those_of room ts r).transfers
unfolding delete_those_of
delete_those_of-IsKeyed room [] r h = h
delete_those_of-IsKeyed room (t ∷ ts) r h =
    delete_those_of-IsKeyed room ts (if t.room_id == room then delete_by_id t.id r else r)
      (ground (arith, erase-IsKeyed t.id r.transfers h))

filter-eq-nil :
    (p : Transfer → Bool) (d : Dict ℕ Transfer)
    → IsKeyed d
    → ((id : ℕ) (t : Transfer) → lookup id d ≡ some t → p t ≡ false)
    → filter p (values d) ≡ []
filter-eq-nil p [] keyed h = refl
filter-eq-nil p ((k, v) ∷ d) keyed h =
    ground (arith, h k v, filter-eq-nil p d keyed.1 (λ id t e. h id t (ground arith)))

-- `deleteByRoomId` leaves the Room without Transfers.
pub find_by_room_id-delete_by_room_id :
    (room : ℕ) (r : TransferRepository)
    → IsConsistent r
    → find_by_room_id room (delete_by_room_id room r) ≡ []
unfolding find_by_room_id delete_by_room_id belongs
find_by_room_id-delete_by_room_id room r h =
    filter-eq-nil _ (delete_by_room_id room r).transfers
      (delete_those_of-IsKeyed room (values r.transfers) r h.keyed)
      λ id t e. ground (arith, (delete_by_room_id_lem room id r h).0)
