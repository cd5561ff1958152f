-- ===== src/Transfer/Chunking/Laws.antt =====
-- Which chunks `validateChunk` admits.
use synxor.Common.{◌+◌, ◌-◌, ◌*◌, ◌≤◌, ◌<◌, min, ◌≡◌, ◌↔◌, ok, arith}
use synxor.Transfer.Chunking.{chunk_size_bytes, ChunkShape, validate_chunk}

-- The shape of a chunk, described without the code: the chunks are the least number that covers
-- the file, and chunk `i` is the part of the file from `i` chunk sizes on, cut at the chunk size.
pub record IsChunkOf (c : ChunkShape) : Type 0 where
  pub not_empty : 0 < c.file_size_bytes
  pub covers : c.file_size_bytes ≤ c.total_chunks * chunk_size_bytes
  pub least : c.total_chunks * chunk_size_bytes < c.file_size_bytes + chunk_size_bytes
  pub in_range : c.chunk_index < c.total_chunks
  pub part :
      c.byte_length ≡ min chunk_size_bytes (c.file_size_bytes - c.chunk_index * chunk_size_bytes)

-- `validateChunk` accepts exactly the chunks of that shape: it rejects every other total, index or
-- length.
pub validate_chunk_iff : (c : ChunkShape) → (validate_chunk c ≡ ok tt) ↔ IsChunkOf c
unfolding validate_chunk
validate_chunk_iff c = (λ h. ground arith, λ h. ground arith)
