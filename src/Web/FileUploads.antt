-- ===== src/Web/FileUploads.antt =====
-- apps/web/src/features/room/hooks/useFileUploads.ts: the upload of the queued files. An upload
-- is a call of the uploader that waits; what it is answered with comes from outside.
pub mod Lane
use synxor.Common.{
  ℕ, Bool, true, false, ◌&&◌, ◌||◌, not, any, find, filter, if◌then◌else◌, Option, none, some, List,
  [], ◌∷◌, ◌++◌, Text, codes, text_beq, text_eq, Dict, insert, erase, lookup,
}
use synxor.Web.FileQueue.{QueuedFile, has_id}

pub data UploadState : Type 0 where
  uploading : ℕ → UploadState
  done : ℕ → UploadState
  error : Text → UploadState

-- The upload that runs, and whether its controller was aborted.
pub record Active : Type 0 where
  pub id : Text
  pub aborted : Bool

-- The hook's state and its references; `started` is a `Set`. `calls` counts the uploader's calls.
pub record Uploads : Type 0 where
  pub states : Dict Text UploadState
  pub active : Option Active
  pub started : List Text
  pub calls : List Text

abbrev pub has_text : Text → List Text → Bool
has_text id ids = any (text_beq id) ids

-- The first effect: what has left the queue is aborted, and forgotten.
unfoldable pub leave_effect : List QueuedFile → Uploads → Uploads
leave_effect files u = record u {
  active = elim (u.active) [
    | none ↦ none
    | some a ↦ some (if has_id a.id files then a else record a { aborted = true })
  ];
  started = filter (λ id. has_id id files) u.started;
}

-- The second effect: the first file that was not started is, if no upload runs. `ready` says whether
-- there are a token and an origin.
unfoldable pub start_effect : Bool → List QueuedFile → Uploads → Uploads
start_effect ready files u =
    let next = find (λ q. not (has_text q.id u.started)) files in
    let started : Uploads = elim next [
      | none ↦ u
      | some q ↦ record {
        states = insert q.id (uploading 0) u.states;
        active = some (record { id = q.id; aborted = false });
        started = u.started ++ q.id ∷ [];
        calls = u.calls ++ q.id ∷ [];
      }
    ] in
    elim (u.active) [ some a ↦ u | none ↦ if ready then started else u ]

-- `onProgress` of the upload that runs.
unfoldable pub on_progress : ℕ → Uploads → Uploads
on_progress percent u = elim (u.active) [
  | none ↦ u
  | some a ↦ record u { states = insert a.id (uploading percent) u.states }
]

-- How the uploader's promise settles: with a Transfer, with an `UploadError` and its message, or with
-- another error.
pub data Outcome : Type 0 where
  uploaded : ℕ → Outcome
  upload_error : Text → Outcome
  other_error : Outcome

abbrev pub failed : Text → Active → Uploads → Dict Text UploadState
failed message a u = if a.aborted then erase a.id u.states else insert a.id (error message) u.states

unfoldable pub settled_states : Outcome → Active → Uploads → Dict Text UploadState
settled_states (uploaded id) a u = insert a.id (done id) u.states
settled_states (upload_error message) a u = failed message a u
settled_states other_error a u =
    failed (codes "Upload failed. Check your connection and try again.") a u

unfoldable pub settle : Outcome → Uploads → Uploads
unfolding settled_states
settle outcome u = elim (u.active) [
  | none ↦ u
  | some a ↦ record u { states = settled_states outcome a u; active = none }
]

-- A render after the queue or the states changed: both effects, in their order.
unfoldable pub render : Bool → List QueuedFile → Uploads → Uploads
unfolding leave_effect start_effect
render ready files u = start_effect ready files (leave_effect files u)
