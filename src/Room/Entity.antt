-- ===== src/Room/Entity.antt =====
-- apps/api/src/domain/room: the entity, its status, its expiry (room-expiry.ts, room-status.ts) and
-- the errors (room.errors.ts). Times are milliseconds; the units are those of
-- apps/api/src/common/time.ts.
use synxor.Common.{ℕ, ◌+◌, ◌*◌, Bool, true, false, not, ◌||◌, leb, Text}

pub data RoomStatus : Type 0 where
  active closed expired : RoomStatus

abbrev pub status_beq : RoomStatus → RoomStatus → Bool
status_beq active active = true
status_beq closed closed = true
status_beq expired expired = true
status_beq _ _ = false

pub record Room : Type 0 where
  pub id : ℕ
  pub code : Text
  pub status : RoomStatus
  pub expires_at : ℕ
  pub created_at : ℕ

pub data RoomError : Type 0 where
  room_code_collision : Text → RoomError
  room_code_exhaustion : ℕ → RoomError
  room_not_found : Text → RoomError
  room_expired : Text → RoomError
  room_closed : Text → RoomError
  signing_failure : RoomError
  storage_failure : RoomError
  database_failure : RoomError

abbrev pub second_ms : ℕ
second_ms = 1000

abbrev pub minute_ms : ℕ
minute_ms = 60 * second_ms

abbrev pub hour_ms : ℕ
hour_ms = 60 * minute_ms

abbrev pub day_ms : ℕ
day_ms = 24 * hour_ms

-- The keys of `EXPIRY_DURATIONS_MS`; a value of this type always has a duration.
pub data Expiry : Type 0 where
  one_hour one_day seven_days : Expiry

abbrev pub expiry_duration_ms : Expiry → ℕ
expiry_duration_ms one_hour = hour_ms
expiry_duration_ms one_day = 24 * hour_ms
expiry_duration_ms seven_days = 7 * day_ms

unfoldable pub resolve_expires_at : Expiry → ℕ → ℕ
resolve_expires_at expiry now = now + expiry_duration_ms expiry

unfoldable pub is_expired : Room → ℕ → Bool
is_expired room now = not (status_beq room.status active) || leb room.expires_at now
