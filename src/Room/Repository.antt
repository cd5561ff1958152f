-- ===== src/Room/Repository.antt =====
-- The room repository as apps/api/src/domain/room/room.repository.fake.ts implements the port of
-- room.repository.ts: a map by Room Code. The time is an argument.
use synxor.Common.{
  ℕ, ◌+◌, ◌&&◌, leb, ◌==◌, Option, none, some, List, [], filter, find, Text, Dict, values, lookup,
  insert, erase, Result, ok, err, text_eq,
}
use synxor.Room.Entity.{
  Room, RoomStatus, active, status_beq, RoomError, room_code_collision, database_failure,
}

pub record RoomRepository : Type 0 where
  pub stored : Dict Text Room
  pub next_id : ℕ

abbrev pub empty_rooms : RoomRepository
empty_rooms = record { stored = []; next_id = 1 }

abbrev pub room_of : ℕ → ℕ → Text → ℕ → Room
room_of now id code expires_at = record {
  id = id;
  code = code;
  status = active;
  expires_at = expires_at;
  created_at = now;
}

unfoldable pub create : ℕ → Text → ℕ → RoomRepository → Result RoomError Room × RoomRepository
create now code expires_at r = elim (lookup code r.stored) [
  | some taken ↦ (err (room_code_collision code), r)
  | none ↦
      let room = room_of now r.next_id code expires_at in
      (ok room, record r { stored = insert code room r.stored; next_id = r.next_id + 1 })
]

unfoldable pub find_by_id : ℕ → RoomRepository → Option Room
find_by_id id r = find (λ room. room.id == id) (values r.stored)

unfoldable pub find_by_code : Text → RoomRepository → Option Room
find_by_code code r = lookup code r.stored

-- An id that no Room has makes the access to its code throw.
unfoldable pub update_status :
    ℕ → RoomStatus → RoomRepository → Result RoomError Room × RoomRepository
unfolding find_by_id
update_status id status r = elim (find_by_id id r) [
  | none ↦ (err database_failure, r)
  | some room ↦
      let updated = record room { status = status } in
      (ok updated, record r { stored = insert room.code updated r.stored })
]

unfoldable pub find_expired_active : ℕ → RoomRepository → List Room
find_expired_active now r =
    filter (λ room. status_beq room.status active && leb room.expires_at now) (values r.stored)

unfoldable pub delete : ℕ → RoomRepository → RoomRepository
unfolding find_by_id
delete id r = elim (find_by_id id r) [
  | none ↦ r
  | some room ↦ record r { stored = erase room.code r.stored }
]
