-- ===== src/Web/Countdown.antt =====
-- apps/web/src/features/room/utils/countdown.ts: how urgent a Room's expiry is. Times are milliseconds;
-- the fraction 0.1 of the lifespan is compared in tenths, so that it stays exact.
use synxor.Common.{ℕ, ◌+◌, ◌*◌, ◌≤◌, ◌≡◌, leb, if◌then◌else◌, min, max, Option, none, some, arith}
use synxor.Room.Entity.{minute_ms, hour_ms}

pub data CountdownPhase : Type 0 where
  live expiring expired : CountdownPhase

abbrev pub min_expiry_warn_ms : ℕ
min_expiry_warn_ms = 5 * minute_ms

abbrev pub max_expiry_warn_ms : ℕ
max_expiry_warn_ms = 24 * hour_ms

-- Ten times `warnThresholdMs`; a lifespan that is not known, not finite or not positive is `none` or 0.
unfoldable pub warn_threshold_tenths : Option ℕ → ℕ
warn_threshold_tenths none = 10 * min_expiry_warn_ms
warn_threshold_tenths (some lifespan_ms) =
    if leb lifespan_ms 0
    then 10 * min_expiry_warn_ms
    else min (10 * max_expiry_warn_ms) (max (10 * min_expiry_warn_ms) lifespan_ms)

-- What is left is 0 once the Room has expired.
unfoldable pub phase_for : ℕ → Option ℕ → CountdownPhase
unfolding warn_threshold_tenths
phase_for remaining_ms lifespan_ms =
    if leb remaining_ms 0
    then expired
    else if leb (10 * remaining_ms) (warn_threshold_tenths lifespan_ms)
    then expiring
    else live

abbrev pub urgency : CountdownPhase → ℕ
urgency live = 0
urgency expiring = 1
urgency expired = 2

-- The countdown never goes back to a calmer phase as time passes; it is not calm in the last five
-- minutes, and it is calm while more than a day is left.
pub phase_for-monotone :
    (remaining passed : ℕ) (lifespan : Option ℕ)
    → (urgency (phase_for (remaining + passed) lifespan) ≤ urgency (phase_for remaining lifespan))
      × (remaining ≤ min_expiry_warn_ms → 1 ≤ urgency (phase_for remaining lifespan))
      × (phase_for (max_expiry_warn_ms + 1 + remaining) lifespan ≡ live)
unfolding phase_for warn_threshold_tenths
phase_for-monotone remaining passed none = ground arith
phase_for-monotone remaining passed (some l) = ground arith
