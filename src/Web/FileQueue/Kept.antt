-- ===== src/Web/FileQueue/Kept.antt =====
-- The files in the Drop Zone's queue (apps/web/src/features/room/hooks/useFileQueue.ts).
use synxor.Common.{
  ℕ, ◌≤◌, ◌≡◌, refl, true, false, ltb, ◌||◌, Option, none, some, List, [], ◌∷◌, ◌++◌, Text,
  text_beq, text_beq_iff, if-split, arith, IsPrefix, appended, IsPrefix-refl, IsPrefix-trans,
}
use synxor.Web.FileQueue.{
  File, QueuedFile, DropNotice, Queue, max_file_size_bytes, is_ignored, file_key, already_queued,
  too_large, queued, has_id, add_loop, add_files,
}

-- A file that the queue takes.
abbrev pub IsTaken : (ℕ → Text) → QueuedFile → Type 0
IsTaken decimal x =
    (x.id ≡ file_key decimal x.file)
    × (x.file.size ≤ max_file_size_bytes)
    × (is_ignored x.file.name ≡ false)

-- Every file is one that the queue takes, and none is there twice.
abbrev pub IsQueued : (ℕ → Text) → List QueuedFile → Type 0
IsQueued decimal [] = Unit {0}
IsQueued decimal (x ∷ xs) = IsTaken decimal x × (has_id x.id xs ≡ false) × IsQueued decimal xs

has_id-append :
    (k : Text) (x : QueuedFile) (xs : List QueuedFile)
    → has_id k (xs ++ x ∷ []) ≡ (has_id k xs || text_beq x.id k)
has_id-append k x [] = ground arith
has_id-append k x (y ∷ xs) = ground (arith, has_id-append k x xs)

append-IsQueued :
    (decimal : ℕ → Text) (x : QueuedFile) (xs : List QueuedFile)
    → IsTaken decimal x
    → has_id x.id xs ≡ false
    → IsQueued decimal xs
    → IsQueued decimal (xs ++ x ∷ [])
append-IsQueued decimal x [] t f h = (t, refl, tt)
append-IsQueued decimal x (y ∷ xs) t f h = (
  h.0,
  ground (arith, has_id-append y.id x xs, h.1, f, text_beq_iff x.id y.id, text_beq_iff y.id x.id),
  append-IsQueued decimal x xs t (ground (arith, f)) h.2,
)

module _ (decimal : ℕ → Text) where
  add_loop-IsQueued :
      (fs : List File) (next : List QueuedFile) (notice : Option DropNotice)
      → IsQueued decimal next
      → IsQueued decimal (add_loop decimal fs next notice).0
  unfolding add_loop
  add_loop-IsQueued [] next notice h = h
  add_loop-IsQueued (f ∷ fs) next notice h =
      let Q : List QueuedFile × Option DropNotice → Type 0 = λ r. IsQueued decimal r.0 in
      let id = file_key decimal f in
      if-split Q (is_ignored f.name) (λ _. add_loop-IsQueued fs next notice h)
        (λ named.
          if-split Q (has_id id next) (λ _. add_loop-IsQueued fs next (some already_queued) h)
            (λ new.
              if-split Q (ltb max_file_size_bytes f.size)
                (λ _. add_loop-IsQueued fs next (some (too_large f.name)) h)
                (λ small. add_loop-IsQueued fs (next ++ queued id f ∷ []) notice (
                  append-IsQueued decimal (queued id f) next (refl, ground (arith, small), named)
                    new h))))

  add_loop-IsPrefix :
      (fs : List File) (next : List QueuedFile) (notice : Option DropNotice)
      → IsPrefix next (add_loop decimal fs next notice).0
  unfolding add_loop
  add_loop-IsPrefix [] next notice = IsPrefix-refl next
  add_loop-IsPrefix (f ∷ fs) next notice =
      let Q : List QueuedFile × Option DropNotice → Type 0 = λ r. IsPrefix next r.0 in
      let id = file_key decimal f in
      if-split Q (is_ignored f.name) (λ _. add_loop-IsPrefix fs next notice)
        (λ _.
          if-split Q (has_id id next) (λ _. add_loop-IsPrefix fs next (some already_queued))
            (λ _.
              if-split Q (ltb max_file_size_bytes f.size)
                (λ _. add_loop-IsPrefix fs next (some (too_large f.name)))
                (λ _.
                  IsPrefix-trans (appended next (queued id f ∷ []))
                    (add_loop-IsPrefix fs (next ++ queued id f ∷ []) notice))))

  add_loop-keeps :
      (k : Text) (fs : List File) (next : List QueuedFile) (notice : Option DropNotice)
      → has_id k next ≡ true
      → has_id k (add_loop decimal fs next notice).0 ≡ true
  unfolding add_loop
  add_loop-keeps k [] next notice h = h
  add_loop-keeps k (f ∷ fs) next notice h =
      let x = queued (file_key decimal f) f in
      ground (
        arith,
        h,
        add_loop-keeps k fs next notice,
        add_loop-keeps k fs next (some already_queued),
        add_loop-keeps k fs next (some (too_large f.name)),
        add_loop-keeps k fs (next ++ x ∷ []) notice,
        has_id-append k x next,
      )

  -- What the queue takes of what is dropped.
  abbrev pub AllIn : List QueuedFile → List File → Type 0
  AllIn files [] = Unit {0}
  AllIn files (f ∷ fs) =
      ((is_ignored f.name || ltb max_file_size_bytes f.size || has_id (file_key decimal f) files)
        ≡ true)
      × AllIn files fs

  add_loop-AllIn :
      (fs : List File) (next : List QueuedFile) (notice : Option DropNotice)
      → AllIn (add_loop decimal fs next notice).0 fs
  unfolding add_loop
  add_loop-AllIn [] next notice = tt
  add_loop-AllIn (f ∷ fs) next notice =
      let Q : List QueuedFile × Option DropNotice → Type 0 = λ r. AllIn r.0 fs in
      let id = file_key decimal f in
      let x = queued id f in
      (
        ground (
          arith,
          add_loop-keeps id fs next (some already_queued),
          add_loop-keeps id fs (next ++ x ∷ []) notice,
          has_id-append id x next,
          text_beq_iff id id,
        ),
        if-split Q (is_ignored f.name) (λ _. add_loop-AllIn fs next notice)
            (λ _.
              if-split Q (has_id id next) (λ _. add_loop-AllIn fs next (some already_queued))
                (λ _.
                  if-split Q (ltb max_file_size_bytes f.size)
                    (λ _. add_loop-AllIn fs next (some (too_large f.name)))
                    (λ _. add_loop-AllIn fs (next ++ x ∷ []) notice))),
      )

  -- Files are dropped into a queue whose files are of the kind it takes, each there once, and it stays
  -- so; the files that were there stay first; and every dropped file that has no ignored name and is
  -- not too large is in the queue then, under its key.
  pub add_files-IsQueued :
      (incoming : List File) (q : Queue)
      → IsQueued decimal q.files
      → let q' = add_files decimal incoming q in
        IsQueued decimal q'.files × IsPrefix q.files q'.files × AllIn q'.files incoming
  unfolding add_files
  add_files-IsQueued incoming q h = (
    add_loop-IsQueued incoming q.files none h,
    add_loop-IsPrefix incoming q.files none,
    add_loop-AllIn incoming q.files none,
  )
