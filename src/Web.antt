-- ===== src/Web.antt =====
-- The web client (apps/web/src/features/room).
pub mod ChunkUpload
pub mod ComposingSignal
pub mod Countdown
pub mod FileQueue
pub mod FileUploads
pub mod Notices
pub mod OwnTransferIds
pub mod RoomSession
pub mod RoomSocket
pub mod TransferLog
pub mod TransferStall
