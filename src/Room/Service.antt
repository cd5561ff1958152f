-- ===== src/Room/Service.antt =====
-- `create`, `join`, `close` and `purgeRoomContents` of apps/api/src/room/room.service.ts. What
-- comes from outside is an argument: the codes that the generator draws, the token that signing
-- yields (`none` if it throws), the clock, and which removals in storage fail.
pub mod Codes
pub mod Creating
pub mod Joining
pub mod Purging
pub mod InFlight
use synxor.Common.{
  ℕ, zero, suc, Bool, true, false, if◌then◌else◌, Option, none, some, List, [], ◌∷◌, Text, Result,
  ok, err,
}
use synxor.Room.Entity.{
  Room, RoomStatus, closed, status_beq, Expiry, resolve_expires_at, is_expired, RoomError,
  room_code_collision, room_code_exhaustion, room_not_found, room_expired, room_closed,
  signing_failure, storage_failure,
}
use synxor.Room.Repository.{RoomRepository, create, find_by_code, update_status, delete}
use synxor.Room.World.{World}
use synxor.Storage.Key.{ObjectKey}
use synxor.Storage.Objects.{Objects, remove_object}
use synxor.Transfer.Http.{TokenRole, sender_role, receiver_role}
use synxor.Transfer.Repository.{list_storage_keys_by_room_id, delete_by_room_id}

-- `tokenIssuer.sign({ roomId, role }, expiresAt)`
abbrev pub Signer : Type 0
Signer = ℕ → TokenRole → ℕ → Option Text

abbrev pub room_code_max_attempts : ℕ
room_code_max_attempts = 5

-- The loop of `createRoomWithUniqueCode` with `n` attempts to go; attempt `i` draws `codes i`.
unfoldable pub try_codes :
    (ℕ → Text) → ℕ → ℕ → ℕ → ℕ → RoomRepository → Result RoomError Room × RoomRepository
try_codes codes now expires_at zero i r = (err (room_code_exhaustion room_code_max_attempts), r)
try_codes codes now expires_at (suc n) i r =
    let rest = try_codes codes now expires_at n (suc i) r in
    let (created, r') = create now (codes i) expires_at r in
    elim created [
      | ok room ↦ (ok room, r')
      | err e ↦ elim e [ room_code_collision c ↦ rest | other ↦ (err other, r') ]
    ]

unfoldable pub create_room_with_unique_code :
    (ℕ → Text) → ℕ → ℕ → RoomRepository → Result RoomError Room × RoomRepository
unfolding try_codes
create_room_with_unique_code codes now expires_at r =
    try_codes codes now expires_at room_code_max_attempts 0 r

pub record CreateRoomResult : Type 0 where
  pub room_code : Text
  pub room_token : Text
  pub expires_at : ℕ

-- When signing fails the new Room is deleted again, unless the cleanup fails too.
unfoldable pub create_room :
    (ℕ → Text)
    → Signer
    → Bool
    → ℕ
    → Expiry
    → RoomRepository
    → Result RoomError CreateRoomResult × RoomRepository
unfolding resolve_expires_at
create_room codes sign cleanup_fails now expiry r =
    let expires_at = resolve_expires_at expiry now in
    let (created, r') = create_room_with_unique_code codes now expires_at r in
    elim created [
      | err e ↦ (err e, r')
      | ok room ↦ elim (sign room.id sender_role expires_at) [
        | some token ↦ (
          ok (record { room_code = room.code; room_token = token; expires_at = room.expires_at }),
          r',
        )
        | none ↦ (err signing_failure, if cleanup_fails then r' else delete room.id r')
      ]
    ]

pub record JoinRoomResult : Type 0 where
  pub room_token : Text
  pub room_id : ℕ

unfoldable pub join : Signer → ℕ → Text → RoomRepository → Result RoomError JoinRoomResult
unfolding is_expired
join sign now room_code r = elim (find_by_code room_code r) [
  | none ↦ err (room_not_found room_code)
  | some room ↦
      if status_beq room.status closed
      then err (room_closed room_code)
      else if is_expired room now
      then err (room_expired room_code)
      else elim (sign room.id receiver_role room.expires_at) [
        | none ↦ err signing_failure
        | some token ↦ ok (record { room_token = token; room_id = room.id })
      ]
]

-- The loop over the keys, which a failed removal ends.
unfoldable pub remove_all : (ObjectKey → Bool) → List ObjectKey → Objects → Bool × Objects
remove_all fails [] o = (false, o)
remove_all fails (k ∷ ks) o =
    let rest = remove_all fails ks (remove_object k o) in if fails k then (true, o) else rest

unfoldable pub purge_room_contents :
    (ObjectKey → Bool) → ℕ → World → Result RoomError (Unit {0}) × World
unfolding remove_all
purge_room_contents fails room_id w =
    let (failed, objects) =
      remove_all fails (list_storage_keys_by_room_id room_id w.transfers) w.objects in
    if failed
    then (err storage_failure, record w { api = record (w.api) { objects = objects } })
    else (
      ok tt,
      record w {
        api = record (w.api) {
          objects = objects;
          transfers = delete_by_room_id room_id w.transfers;
        };
      },
    )

-- The purge, then the status. `close` of the service and `expireRoom` of the sweeper share it.
unfoldable pub purge_then :
    RoomStatus → (ObjectKey → Bool) → ℕ → World → Result RoomError (Unit {0}) × World
unfolding purge_room_contents
purge_then status fails room_id w =
    let (purged, w') = purge_room_contents fails room_id w in
    elim purged [
      | err e ↦ (err e, w')
      | ok _ ↦
          let (updated, rooms) = update_status room_id status w'.rooms in
          elim updated [ err e ↦ (err e, w') | ok room ↦ (ok tt, record w' { rooms = rooms }) ]
    ]

unfoldable pub close : (ObjectKey → Bool) → ℕ → World → Result RoomError (Unit {0}) × World
unfolding purge_then
close fails room_id w = purge_then closed fails room_id w
