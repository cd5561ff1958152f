-- ===== src/Transfer/Assembler.antt =====
-- apps/api/src/transfer/chunk-assembler.ts: a fully received upload's chunk objects become the
-- final object and are removed. What storage does beyond the port's contract is an argument: the
-- write fails or not, and so does the removal of each chunk.
pub mod Laws
use synxor.Common.{
  ℕ, zero, suc, ◌+◌, Bool, true, false, ◌||◌, if◌then◌else◌, Option, none, some, ◌++◌, [], Result,
  ok, err,
}
use synxor.Storage.Key.{ObjectKey, file_object_key, chunk_object_key}
use synxor.Storage.Objects.{Bytes, Objects, put_object, get_object, remove_object}
use synxor.Transfer.Errors.{TransferError, object_not_found, storage_failure}
use synxor.Transfer.Sessions.{UploadSession}

-- The chunks `from`, `from + 1`, … read in order and concatenated; `none` if one is missing.
pub read_chunks_in_order : ℕ → ℕ → ℕ → ℕ → Objects → Option Bytes
read_chunks_in_order room transfer from zero o = some []
read_chunks_in_order room transfer from (suc n) o =
    let rest = read_chunks_in_order room transfer (from + 1) n o in
    elim (get_object (chunk_object_key room transfer from) 0 o) [
      | none ↦ none
      | some chunk ↦ elim rest [ none ↦ none | some bytes ↦ some (chunk ++ bytes) ]
    ]

-- `Promise.all` over the removals: all are started, and one that fails rejects the whole. The
-- flag says whether one failed.
pub remove_chunks : (ℕ → Bool) → ℕ → ℕ → ℕ → Objects → Bool × Objects
remove_chunks fails room transfer zero o = (false, o)
remove_chunks fails room transfer (suc n) o =
    let (failed, o') = remove_chunks fails room transfer n o in
    if fails n then (true, o') else (failed, remove_object (chunk_object_key room transfer n) o')

unfoldable pub assemble :
    Bool → (ℕ → Bool) → UploadSession → Objects → Result TransferError (Unit {0}) × Objects
unfolding read_chunks_in_order remove_chunks
assemble put_fails remove_fails session o =
    elim (read_chunks_in_order session.room_id session.transfer_id 0 session.total_chunks o) [
      | none ↦ (err object_not_found, o)
      | some concatenated ↦
          if put_fails
          then (err storage_failure, o)
          else let o' =
              put_object (file_object_key session.room_id session.transfer_id) concatenated o in
            let (failed, o'') =
              remove_chunks remove_fails session.room_id session.transfer_id session.total_chunks
                o' in
            (if failed then err storage_failure else ok tt, o'')
    ]
