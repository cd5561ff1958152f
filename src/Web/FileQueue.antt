-- ===== src/Web/FileQueue.antt =====
-- apps/web/src/features/room/hooks/useFileQueue.ts: the files that wait in the Drop Zone. A number in
-- decimal digits is an argument.
pub mod Kept
pub mod Reorder
use synxor.Common.{
  ℕ, zero, suc, ◌+◌, ◌*◌, Bool, true, false, ltb, ◌==◌, not, ◌||◌, if◌then◌else◌, any, filter,
  Option, none, some, List, [], ◌∷◌, ◌++◌, Text, codes, text_beq,
}

-- What the hook reads of a `File`.
pub record File : Type 0 where
  pub name : Text
  pub size : ℕ
  pub last_modified : ℕ

pub record QueuedFile : Type 0 where
  pub id : Text
  pub file : File
  pub warning : Option Text

pub data NoticeKind : Type 0 where
  error warning : NoticeKind

pub record DropNotice : Type 0 where
  pub kind : NoticeKind
  pub message : Text

pub record Queue : Type 0 where
  pub files : List QueuedFile
  pub notice : Option DropNotice

abbrev pub max_file_size_bytes : ℕ
max_file_size_bytes = 5 * 1024 * 1024 * 1024

abbrev pub is_ignored : Text → Bool
is_ignored name = text_beq name (codes ".DS_Store") || text_beq name (codes "Thumbs.db")

unfoldable pub file_key : (ℕ → Text) → File → Text
file_key decimal f = f.name ++ codes "|" ++ decimal f.size ++ codes "|" ++ decimal f.last_modified

unfoldable pub reject_folder : Queue → Queue
reject_folder q = record q {
  notice = some (record {
    kind = error;
    message = codes "Folders aren't supported. Select individual files.";
  });
}

abbrev pub already_queued : DropNotice
already_queued = record { kind = warning; message = codes "This file is already queued." }

-- `formatFileSize(MAX_FILE_SIZE_BYTES)` is "5 GB".
abbrev pub too_large : Text → DropNotice
too_large name = record { kind = error; message = name ++ codes " exceeds the 5 GB size limit." }

abbrev pub queued : Text → File → QueuedFile
queued id f = record {
  id = id;
  file = f;
  warning = if f.size == 0 then some (codes "This file is empty.") else none;
}

abbrev pub has_id : Text → List QueuedFile → Bool
has_id id files = any (λ q. text_beq q.id id) files

-- The loop over the incoming files. The ids in `seen` are those of `next`.
unfoldable pub add_loop :
    (ℕ → Text)
    → List File
    → List QueuedFile
    → Option DropNotice
    → List QueuedFile × Option DropNotice
unfolding file_key
add_loop decimal [] next notice = (next, notice)
add_loop decimal (f ∷ fs) next notice =
    let id = file_key decimal f in
    let skipped = add_loop decimal fs next notice in
    let duplicate = add_loop decimal fs next (some already_queued) in
    let refused = add_loop decimal fs next (some (too_large f.name)) in
    let accepted = add_loop decimal fs (next ++ queued id f ∷ []) notice in
    if is_ignored f.name
    then skipped
    else if has_id id next
    then duplicate
    else if ltb max_file_size_bytes f.size
    then refused
    else accepted

unfoldable pub add_files : (ℕ → Text) → List File → Queue → Queue
unfolding add_loop
add_files decimal incoming q =
    let (next, notice) = add_loop decimal incoming q.files none in
    record { files = next; notice = notice }

unfoldable pub remove_file : Text → Queue → Queue
remove_file id q = record q { files = filter (λ x. not (text_beq x.id id)) q.files }

-- `findIndex`
abbrev pub index_of : Text → List QueuedFile → Option ℕ
index_of id [] = none
index_of id (x ∷ xs) =
    let rest : Option ℕ = elim (index_of id xs) [ none ↦ none | some i ↦ some (suc i) ] in
    if text_beq x.id id then some 0 else rest

-- `splice(from, 1)`: the entry, and the list without it.
abbrev pub take_out : ℕ → List QueuedFile → Option QueuedFile × List QueuedFile
take_out i [] = (none, [])
take_out zero (x ∷ xs) = (some x, xs)
take_out (suc i) (x ∷ xs) = let (moved, rest) = take_out i xs in (moved, x ∷ rest)

-- `splice(to, 0, moved)`
abbrev pub put_in : ℕ → QueuedFile → List QueuedFile → List QueuedFile
put_in i m [] = m ∷ []
put_in zero m (x ∷ xs) = m ∷ x ∷ xs
put_in (suc i) m (x ∷ xs) = x ∷ put_in i m xs

unfoldable pub move : ℕ → ℕ → List QueuedFile → List QueuedFile
move from to files =
    let (moved, rest) = take_out from files in
    elim moved [ none ↦ files | some m ↦ put_in to m rest ]

unfoldable pub reorder_files : Text → Text → Queue → Queue
unfolding move
reorder_files active over q = if text_beq active over then q else elim (index_of active q.files) [
  | none ↦ q
  | some from ↦ elim (index_of over q.files) [
    | none ↦ q
    | some to ↦ record q { files = move from to q.files }
  ]
]
