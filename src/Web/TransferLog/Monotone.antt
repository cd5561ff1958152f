-- ===== src/Web/TransferLog/Monotone.antt =====
-- Persisted rows under live events (apps/web/src/features/room/utils/transfer-log.ts).
use synxor.Common.{ℕ, ◌≡◌, ◌||◌, some, Dict, lookup, nat_eq}
use synxor.Web.TransferLog.{is_delivered, TransferLogRow}

-- The row refines another one of the same Transfer: the time is the same, a delivered row stays
-- delivered and a row of this client stays its own.
pub record IsRefined (old new : TransferLogRow) : Type 0 where
  pub time : new.received_at ≡ old.received_at
  pub delivered : old.status ≡ is_delivered → new.status ≡ is_delivered
  pub mine : new.mine ≡ (old.mine || new.mine)

-- The Transfer's row after some live events.
Keeps : ℕ → TransferLogRow → Dict ℕ TransferLogRow → Type 0
Keeps id old rows = (new : TransferLogRow) × (lookup id rows ≡ some new) × IsRefined old new
