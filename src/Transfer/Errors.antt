-- ===== src/Transfer/Errors.antt =====
-- apps/api/src/domain/transfer/transfer.errors.ts, with the error of an object that storage does
-- not hold and the failures of storage and database, which the services pass on. Identifiers are
-- only compared, so they are numbers.
use synxor.Common.{ℕ}

pub data TransferError : Type 0 where
  range_error : ℕ → TransferError
  file_too_large : ℕ → ℕ → TransferError
  chunk_total_mismatch : ℕ → ℕ → TransferError
  chunk_out_of_range : ℕ → ℕ → TransferError
  chunk_size_mismatch : ℕ → ℕ → ℕ → TransferError
  upload_session_not_found : ℕ → TransferError
  upload_room_mismatch : ℕ → TransferError
  concurrent_transfer_limit : ℕ → TransferError
  object_not_found : TransferError
  storage_failure : TransferError
  database_failure : TransferError
