-- ===== src/Transfer/Entity.antt =====
-- apps/api/src/domain/transfer/transfer.entity.ts and delivery/delivery.entity.ts. Lengths are
-- natural numbers (`bigint` in the source), times milliseconds.
use synxor.Common.{ℕ, Option, Text}
use synxor.Storage.Key.{ObjectKey}

pub data PayloadType : Type 0 where
  file text_snippet link : PayloadType

pub record Transfer : Type 0 where
  pub id : ℕ
  pub room_id : ℕ
  pub payload_type : PayloadType
  pub content_length : ℕ
  pub author_participant_id : Option ℕ
  pub created_at : ℕ

pub record FilePayload : Type 0 where
  pub id : ℕ
  pub transfer_id : ℕ
  pub file_name : Text
  pub file_size_bytes : ℕ
  pub mime_type : Text
  pub storage_key : ObjectKey

pub record CreateTransferInput : Type 0 where
  pub id : Option ℕ
  pub room_id : ℕ
  pub payload_type : PayloadType
  pub content_length : ℕ
  pub author_participant_id : Option ℕ

pub record CreateFilePayloadInput : Type 0 where
  pub transfer_id : ℕ
  pub file_name : Text
  pub file_size_bytes : ℕ
  pub mime_type : Text
  pub storage_key : ObjectKey

pub record TextPayload : Type 0 where
  pub id : ℕ
  pub transfer_id : ℕ
  pub content : Text

pub record CreateTextPayloadInput : Type 0 where
  pub transfer_id : ℕ
  pub content : Text

pub record CreateTextTransferInput : Type 0 where
  pub room_id : ℕ
  pub payload_type : PayloadType
  pub content : Text
  pub content_length : ℕ
  pub author_participant_id : ℕ
