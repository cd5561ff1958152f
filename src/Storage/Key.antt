-- ===== src/Storage/Key.antt =====
-- apps/api/src/domain/transfer/storage-key.ts. An object is named by the Room, the Transfer and,
-- for a chunk, its index: its text joins them with slashes, and identifiers have none.
use synxor.Common.{ℕ, ◌≡◌, ◌↔◌, Bool, true, false, ◌&&◌, ◌==◌, arith, Eq}

pub data ObjectKey : Type 0 where
  file_object_key : ℕ → ℕ → ObjectKey
  chunk_object_key : ℕ → ℕ → ℕ → ObjectKey

abbrev pub key_beq : ObjectKey → ObjectKey → Bool
key_beq (file_object_key r t) (file_object_key r' t') = r == r' && t == t'
key_beq (file_object_key r t) (chunk_object_key r' t' i') = false
key_beq (chunk_object_key r t i) (file_object_key r' t') = false
key_beq (chunk_object_key r t i) (chunk_object_key r' t' i') = r == r' && t == t' && i == i'

pub key_beq_iff : (k j : ObjectKey) → (key_beq k j ≡ true) ↔ (k ≡ j)
key_beq_iff (file_object_key r t) (file_object_key r' t') = (λ h. ground arith, λ h. ground arith)
key_beq_iff (file_object_key r t) (chunk_object_key r' t' i') = (λ h. cc, λ h. cc)
key_beq_iff (chunk_object_key r t i) (file_object_key r' t') = (λ h. cc, λ h. cc)
key_beq_iff (chunk_object_key r t i) (chunk_object_key r' t' i') =
    (λ h. ground arith, λ h. ground arith)

instance abbrev pub object_key_eq : Eq ObjectKey
object_key_eq = record { beq = key_beq; beq_iff = key_beq_iff }
