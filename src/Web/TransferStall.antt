-- ===== src/Web/TransferStall.antt =====
-- apps/web/src/features/room/hooks/useTransferStall.ts: when a Transfer counts as stuck. The timer is
-- its due time with what it will show; times are milliseconds.
use synxor.Common.{
  ℕ, ◌+◌, ◌≤◌, ◌<◌, ◌≡◌, Bool, true, false, leb, if◌then◌else◌, Option, none, some, arith,
}

pub data StallState : Type 0 where
  slow almost : StallState

pub record StallOptions : Type 0 where
  pub slow_after_ms : ℕ
  pub almost_after_ms : ℕ

abbrev pub almost_done_percent : ℕ
almost_done_percent = 99

abbrev pub stall_defaults : StallOptions
stall_defaults = record { slow_after_ms = 10000; almost_after_ms = 30000 }

pub record TransferStall : Type 0 where
  pub state : Option StallState
  pub timer : Option (ℕ × StallState)

-- The effect, when the percentage or the activity has changed.
unfoldable pub on_moved : StallOptions → ℕ → ℕ → Bool → TransferStall
on_moved o now percent is_active =
    let armed =
      if leb almost_done_percent percent
      then (now + o.almost_after_ms, almost)
      else (now + o.slow_after_ms, slow) in
    record { state = none; timer = if is_active then some armed else none }

-- The timer goes off if it is due.
unfoldable pub on_stalled : ℕ → TransferStall → TransferStall
on_stalled now s = elim (s.timer) [
  | none ↦ s
  | some (at, shown) ↦ if leb at now then record { state = some shown; timer = none } else s
]

-- A Transfer that moved less than the shorter window ago shows nothing, and neither does one that is
-- not active, however long ago; an active one shows something once the longer window has passed.
on_stalled-on_moved :
    (o : StallOptions) (at now percent : ℕ) (is_active : Bool)
    → o.slow_after_ms ≤ o.almost_after_ms
    → (now < at + o.slow_after_ms → (on_stalled now (on_moved o at percent is_active)).state ≡ none)
      × (is_active ≡ false → (on_stalled now (on_moved o at percent is_active)).state ≡ none)
      × (at + o.almost_after_ms ≤ now
          → is_active ≡ true
          → (on_stalled now (on_moved o at percent is_active)).state
            ≡ some (if leb almost_done_percent percent then almost else slow))
unfolding on_stalled on_moved
on_stalled-on_moved o at now percent true h = ground arith
on_stalled-on_moved o at now percent false h = ground arith
