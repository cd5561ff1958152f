-- ===== src/Storage.antt =====
-- Object storage (apps/api/src/domain/storage/object-storage.ts and object-storage.fake.ts) and
-- the keys of the objects in it (apps/api/src/domain/transfer/storage-key.ts).
pub mod Key
pub mod Objects
