-- ===== src/Lib.antt =====
-- Verification library of synxor, a service for sharing files and text between browsers: a Sender
-- creates a Room, Receivers join it by its code, and files go through the API in chunks of 256 KB.
--
-- The parts and their files. Paths are from the repository's root; `api` is apps/api/src and `web`
-- is apps/web/src.
--   Common       lists, maps, texts, results and stable sorting, as JavaScript has them
--   Storage      the object storage port and its keys: api/domain/storage, and
--                api/domain/transfer/storage-key.ts
--   Transfer     the entity, the repository (transfer.repository.fake.ts), `Chunking`
--                (chunking.ts), `Sessions` (in-memory-upload-session.store.ts), `Assembler`
--                (chunk-assembler.ts), `Upload` (chunked-upload.service.ts), `Http`
--                (transfer.controller.ts with its schema and error filter), `Delivery`
--                (transfer-delivery.service.ts with prisma-delivery.repository.ts), `Download`
--                (transfer-download.service.ts) and `Text` (text-payload.ts)
--   Room         the entity, the repository (room.repository.fake.ts), the wire events, and
--                `Service` (room.service.ts: create, join, close), `Log` (its listTransfers),
--                `Presence` (room-presence.service.ts), `Code` (crypto-code-generator.ts, and
--                web/features/room/utils/room-code.ts), `Gateway` (room.gateway.ts; its handlers
--                in `Gateway.Handlers`, its runs in `Gateway.Steps`, and its waits
--                against `Presence` in `Gateway.Waits`) and `Router`
--                (trpc/routers/room.router.ts, web/features/room/utils/join-error.ts)
--   Security     api/infrastructure/security/jwt-token-issuer.ts and jwt-token-verifier.ts, and the
--                guards of api/common/auth
--   Sweeper      api/sweeper/expiry-sweeper.service.ts
--   Participant  the entity, the repository (participant.repository.fake.ts) and `Identity`
--                (participant-identity.ts)
--   Web          under web/features/room: `ChunkUpload` (services/chunk-upload.service.ts),
--                `TransferLog` (utils/transfer-log.ts), `RoomSocket` (hooks/useRoomSocket.ts),
--                `FileQueue` (hooks/useFileQueue.ts), `FileUploads` (hooks/useFileUploads.ts),
--                `RoomSession` (services/room-session.service.ts), `ComposingSignal`
--                (hooks/useComposingSignal.ts), `Notices` (hooks/usePresenceNotice.ts and
--                useDeliveryFlash.ts), `TransferStall` (hooks/useTransferStall.ts), `OwnTransferIds`
--                (hooks/useOwnTransferIds.ts) and `Countdown` (utils/countdown.ts)
--   Tests        the theorems at concrete inputs
--
-- How they meet: the client's loop calls the upload route, which calls the upload service; the
-- service keeps its sessions, rows and objects in `Api`, and the Room service, the sweeper and the
-- deliveries work on a `World` around it. A function of the source becomes a function with its name
-- in snake case, which takes the state and returns the result and the new state. A rejection is
-- `err`, with the domain error's constructor. Where a call goes to a database, to storage, to the
-- clock or to a random source, its outcome is an argument (`Env`, or a test `fails`).
--
-- The gateway's `connected` map, the live sockets and what still waits make its state. A join is cut
-- where it waits for the row (`joining`, then `write_join`) and after it (`entering`, then
-- `finish_join`), a leave likewise (`leaving`, `write_leave`, `parting`, `finish_leave`), so that
-- other sockets' steps come between, and each step may fail. What was read from the database before
-- a wait, a name or a count, is an argument of the step after it. `Step` is one such step and `Reach`
-- a run. `stranded` and `unseen` are not in the source: they keep what failed calls left behind. The
-- other handlers are one step each, also where they wait (handleRename, handleCloseRoom), and the
-- sockets of a Room are taken from `connected`. In the web client a handler is a function of the
-- hook's state, and a timer is its due time, which `on_timers` reads.
--
-- Parameters stand for the code outside the repository: the JWT library (`Jwt`, with the record
-- `IsJwt` for what its documentation says), JSON (`Json`, `IdsJson`), the URL parser and the length
-- in UTF-8 (`Platform`), the decimal digits of a number, and the hash of a token.
--
-- Numbers are natural numbers; the hash of an identity is kept to 32 bits. `to_base36` has seven
-- digits as fuel, and 36 ^ 7 is above 2 ^ 32; `mime_parameters` takes the text's length, since each
-- of its turns takes a character.
--
-- Not modelled: the Prisma and MinIO clients, for which the repository's own in-memory
-- implementations of the same ports stand; logging, framework glue, configuration, and the web user
-- interface: React's rendering, when it runs an effect, and the hooks that only wire these together.
pub mod Common
pub mod Storage
pub mod Room
pub mod Security
pub mod Transfer
pub mod Sweeper
pub mod Web
pub mod Tests
pub mod Participant
