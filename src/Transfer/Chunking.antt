-- ===== src/Transfer/Chunking.antt =====
-- apps/api/src/domain/transfer/chunking.ts: how a file of a given size is cut into chunks, and the
-- check of one uploaded chunk. Sizes and indices are natural numbers: the request schema coerces
-- them to integers of at least 0, so the tests for finite, integral and negative numbers cannot
-- fail; the test for a size of 0 is kept.
pub mod Laws
pub mod Slices
use synxor.Common.{
  ℕ, ◌+◌, ◌-◌, ◌*◌, ◌/◌, ◌≡◌, Bool, not, leb, ◌==◌, if◌then◌else◌, Result, ok, err, ◌>>=◌, ◌>>◌,
  throw_if,
}
use synxor.Transfer.Errors.{
  TransferError, range_error, chunk_total_mismatch, chunk_out_of_range, chunk_size_mismatch,
}

abbrev pub chunk_size_bytes : ℕ
chunk_size_bytes = 256 * 1024

-- `Math.ceil(fileSizeBytes / CHUNK_SIZE_BYTES)`
unfoldable pub chunk_count_for : ℕ → Result TransferError ℕ
chunk_count_for file_size_bytes =
    if file_size_bytes == 0
    then err (range_error file_size_bytes)
    else ok ((file_size_bytes + (chunk_size_bytes - 1)) / chunk_size_bytes)

pub record ChunkShape : Type 0 where
  pub file_size_bytes : ℕ
  pub total_chunks : ℕ
  pub chunk_index : ℕ
  pub byte_length : ℕ

-- The length that the position of a chunk determines.
unfoldable pub expected_length : ChunkShape → ℕ
expected_length c =
    if c.chunk_index == c.total_chunks - 1
    then c.file_size_bytes - c.chunk_index * chunk_size_bytes
    else chunk_size_bytes

unfoldable pub validate_chunk : ChunkShape → Result TransferError (Unit {0})
unfolding chunk_count_for expected_length
validate_chunk c = do
  expected_total ← chunk_count_for c.file_size_bytes
  throw_if (not (c.total_chunks == expected_total))
      (chunk_total_mismatch c.total_chunks expected_total)
  throw_if (leb c.total_chunks c.chunk_index) (chunk_out_of_range c.chunk_index c.total_chunks)
  throw_if (not (c.byte_length == expected_length c))
      (chunk_size_mismatch c.chunk_index c.byte_length (expected_length c))
