-- ===== src/Sweeper.antt =====
-- apps/api/src/sweeper/expiry-sweeper.service.ts: the sweep over expired Rooms and abandoned
-- uploads. The clock and what fails in storage are arguments; a failure of one Room or upload is
-- logged and skipped, which here leaves the count as it is.
pub mod Uploads
pub mod Reaping
use synxor.Common.{
  ℕ, ◌+◌, ◌-◌, Bool, true, false, ◌||◌, if◌then◌else◌, List, [], ◌∷◌, ◌++◌, map, Result, ok, err,
}
use synxor.Room.Entity.{Room, RoomStatus, expired, RoomError, storage_failure, hour_ms, minute_ms}
use synxor.Room.Repository.{find_expired_active}
use synxor.Room.World.{World}
use synxor.Room.Service.{purge_then, remove_all}
use synxor.Storage.Key.{ObjectKey, file_object_key, chunk_object_key}
use synxor.Transfer.Repository.{delete_by_id}
use synxor.Transfer.Sessions.{UploadSession, find_abandoned, delete_session}

abbrev pub sweep_interval_ms : ℕ
sweep_interval_ms = minute_ms

abbrev pub abandoned_upload_ttl_ms : ℕ
abandoned_upload_ttl_ms = hour_ms

unfoldable pub expire_room : (ObjectKey → Bool) → ℕ → World → Result RoomError (Unit {0}) × World
expire_room fails room_id w = purge_then expired fails room_id w

-- The loop of `expireRooms`: the count, and the state.
unfoldable pub expire_each : (ObjectKey → Bool) → List Room → ℕ → World → ℕ × World
unfolding expire_room
expire_each fails [] count w = (count, w)
expire_each fails (room ∷ rooms) count w =
    let (result, w') = expire_room fails room.id w in
    expire_each fails rooms (elim result [ ok _ ↦ count + 1 | err e ↦ count ]) w'

unfoldable pub expire_rooms : (ObjectKey → Bool) → ℕ → World → ℕ × World
unfolding expire_each
expire_rooms fails now w = expire_each fails (find_expired_active now w.rooms) 0 w

-- The keys that `reapSession` removes, in its order.
unfoldable pub session_keys : UploadSession → List ObjectKey
session_keys m =
    map (λ i. chunk_object_key m.room_id m.transfer_id i) m.received_chunks
    ++ file_object_key m.room_id m.transfer_id ∷ []

unfoldable pub reap_session :
    (ObjectKey → Bool) → UploadSession → World → Result RoomError (Unit {0}) × World
unfolding session_keys
reap_session fails m w =
    let (failed, objects) = remove_all fails (session_keys m) w.objects in
    if failed
    then (err storage_failure, record w { api = record (w.api) { objects = objects } })
    else (
      ok tt,
      record w {
        api = record (w.api) {
          objects = objects;
          transfers = delete_by_id m.transfer_id w.transfers;
          sessions = delete_session m.transfer_id w.sessions;
        };
      },
    )

unfoldable pub reap_each : (ObjectKey → Bool) → List UploadSession → ℕ → World → ℕ × World
unfolding reap_session
reap_each fails [] reaped w = (reaped, w)
reap_each fails (m ∷ ms) reaped w =
    let (result, w') = reap_session fails m w in
    reap_each fails ms (elim result [ ok _ ↦ reaped + 1 | err e ↦ reaped ]) w'

-- Before the first hour of the epoch the source's cutoff is negative and finds nothing, as 0 does.
unfoldable pub reap_abandoned_uploads : (ObjectKey → Bool) → ℕ → World → ℕ × World
unfolding reap_each
reap_abandoned_uploads fails now w =
    reap_each fails (find_abandoned (now - abandoned_upload_ttl_ms) w.sessions) 0 w

pub record Sweeper : Type 0 where
  pub world : World
  pub sweeping : Bool

-- `sweep`: a tick that finds a sweep under way does nothing, and the flag is cleared at the end.
unfoldable pub sweep : (ObjectKey → Bool) → ℕ → Sweeper → Sweeper
unfolding expire_rooms reap_abandoned_uploads
sweep fails now s = if s.sweeping then s else record {
  world = (reap_abandoned_uploads fails now (expire_rooms fails now s.world).1).1;
  sweeping = false;
}
