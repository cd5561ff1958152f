-- ===== src/Transfer/Upload.antt =====
-- apps/api/src/transfer/chunked-upload.service.ts with
-- apps/api/src/transfer/transfer-progress.notifier.ts: one upload request, run to its end. `State`
-- has the service's state, `Open` finds or opens the session of a request, `Accept` stores the
-- chunk and completes the upload.
pub mod State
pub mod Open
pub mod Accept
pub mod Complete
pub mod First
pub mod Guards
