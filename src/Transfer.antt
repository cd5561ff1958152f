-- ===== src/Transfer.antt =====
-- The transfer part of the API (apps/api/src/domain/transfer, apps/api/src/transfer).
pub mod Entity
pub mod Errors
pub mod Repository
pub mod Chunking
pub mod Sessions
pub mod Assembler
pub mod Upload
pub mod Download
pub mod Text
pub mod Http
pub mod Delivery
