-- ===== src/Web/FileQueue/Reorder.antt =====
-- Moving and removing a file of the queue (apps/web/src/features/room/hooks/useFileQueue.ts).
use synxor.Common.{
  ℕ, zero, suc, ◌+◌, ◌≤◌, ◌<◌, ◌≡◌, ◌≢◌, refl, sym, ap, subst, Bool, false, not, ◌||◌,
  if◌then◌else◌, filter, count, length, some, List, [], ◌∷◌, Text, text_beq, text_beq_iff, if-split,
  option-split, arith,
}
use synxor.Web.FileQueue.{
  QueuedFile, Queue, has_id, index_of, take_out, put_in, move, remove_file, reorder_files,
}
use synxor.Web.FileQueue.Kept.{IsTaken, IsQueued}

has_id-filter :
    (k id : Text) (xs : List QueuedFile)
    → has_id k xs ≡ false
    → has_id k (filter (λ x. not (text_beq x.id id)) xs) ≡ false
has_id-filter k id [] h = refl
has_id-filter k id (x ∷ xs) h = ground (arith, has_id-filter k id xs)

filter-IsQueued :
    (decimal : ℕ → Text) (id : Text) (xs : List QueuedFile)
    → IsQueued decimal xs
    → IsQueued decimal (filter (λ x. not (text_beq x.id id)) xs)
filter-IsQueued decimal id [] h = tt
filter-IsQueued decimal id (x ∷ xs) h =
    if-split (IsQueued decimal) (not (text_beq x.id id))
      (λ _. (h.0, has_id-filter x.id id xs h.1, filter-IsQueued decimal id xs h.2))
      (λ _. filter-IsQueued decimal id xs h.2)

-- The entry that is taken out, and those that stay.
index_of-take_out :
    (id : Text) (i : ℕ) (xs : List QueuedFile)
    → index_of id xs ≡ some i
    → (m : QueuedFile) × ((take_out i xs).0 ≡ some m)
      × (m.id ≡ id)
      × (i < length xs)
      × (length xs ≡ length (take_out i xs).1 + 1)
index_of-take_out id i [] h = absurd cc
index_of-take_out id zero (x ∷ xs) h =
    (x, refl, ground (arith, h, text_beq_iff x.id id), omega arith, omega arith)
index_of-take_out id (suc i) (x ∷ xs) h =
    let (m, taken, named, below, shorter) = index_of-take_out id i xs (ground (arith, h)) in
    (m, taken, named, omega (arith, below), omega (arith, shorter))

put_in-count :
    (p : QueuedFile → Bool) (i : ℕ) (m : QueuedFile) (xs : List QueuedFile)
    → count p (put_in i m xs) ≡ count p xs + (if p m then 1 else 0)
put_in-count p i m [] = ground arith
put_in-count p zero m (x ∷ xs) = ground arith
put_in-count p (suc i) m (x ∷ xs) = ground (arith, put_in-count p i m xs)

take_out-count :
    (p : QueuedFile → Bool) (i : ℕ) (m : QueuedFile) (xs : List QueuedFile)
    → (take_out i xs).0 ≡ some m
    → count p xs ≡ count p (take_out i xs).1 + (if p m then 1 else 0)
take_out-count p i m [] h = absurd cc
take_out-count p zero m (x ∷ xs) h = ground (arith, h)
take_out-count p (suc i) m (x ∷ xs) h = ground (arith, take_out-count p i m xs)

has_id-take_out :
    (k : Text) (i : ℕ) (m : QueuedFile) (xs : List QueuedFile)
    → (take_out i xs).0 ≡ some m
    → has_id k xs ≡ (has_id k (take_out i xs).1 || text_beq m.id k)
has_id-take_out k i m [] h = absurd cc
has_id-take_out k zero m (x ∷ xs) h = ground (arith, h)
has_id-take_out k (suc i) m (x ∷ xs) h = ground (arith, has_id-take_out k i m xs)

has_id-put_in :
    (k : Text) (i : ℕ) (m : QueuedFile) (xs : List QueuedFile)
    → has_id k (put_in i m xs) ≡ (has_id k xs || text_beq m.id k)
has_id-put_in k i m [] = ground arith
has_id-put_in k zero m (x ∷ xs) = ground arith
has_id-put_in k (suc i) m (x ∷ xs) = ground (arith, has_id-put_in k i m xs)

has_id-gone :
    (id : Text) (xs : List QueuedFile) → has_id id (filter (λ x. not (text_beq x.id id)) xs) ≡ false
has_id-gone id [] = refl
has_id-gone id (x ∷ xs) = ground (arith, has_id-gone id xs)

has_id-kept :
    (k id : Text) (xs : List QueuedFile)
    → k ≢ id
    → has_id k (filter (λ x. not (text_beq x.id id)) xs) ≡ has_id k xs
has_id-kept k id [] n = refl
has_id-kept k id (x ∷ xs) n =
    ground (arith, has_id-kept k id xs n, n, text_beq_iff x.id id, text_beq_iff x.id k)

module _ (decimal : ℕ → Text) where
  take_out-IsQueued :
      (i : ℕ) (m : QueuedFile) (xs : List QueuedFile)
      → (take_out i xs).0 ≡ some m
      → IsQueued decimal xs
      → IsTaken decimal m
        × (has_id m.id (take_out i xs).1 ≡ false)
        × IsQueued decimal (take_out i xs).1
  take_out-IsQueued i m [] h q = absurd cc
  take_out-IsQueued zero m (x ∷ xs) h q = ground (arith, h, q)
  take_out-IsQueued (suc i) m (x ∷ xs) h q = ground (
    arith,
    q,
    take_out-IsQueued i m xs h q.2,
    has_id-take_out x.id i m xs,
    text_beq_iff x.id m.id,
    text_beq_iff m.id x.id,
  )

  put_in-IsQueued :
      (i : ℕ) (m : QueuedFile) (xs : List QueuedFile)
      → IsTaken decimal m
      → has_id m.id xs ≡ false
      → IsQueued decimal xs
      → IsQueued decimal (put_in i m xs)
  put_in-IsQueued i m [] t n q = (t, refl, tt)
  put_in-IsQueued zero m (x ∷ xs) t n q = (t, n, q)
  put_in-IsQueued (suc i) m (x ∷ xs) t n q = (
    q.0,
    ground
        (arith, q.1, n, has_id-put_in x.id i m xs, text_beq_iff x.id m.id, text_beq_iff m.id x.id),
    put_in-IsQueued i m xs t (ground (arith, n)) q.2,
  )

index_of-put_in :
    (i : ℕ) (m : QueuedFile) (xs : List QueuedFile)
    → has_id m.id xs ≡ false
    → i ≤ length xs
    → index_of m.id (put_in i m xs) ≡ some i
index_of-put_in i m [] n le = ground (arith, text_beq_iff m.id m.id, le)
index_of-put_in zero m (x ∷ xs) n le = ground (arith, text_beq_iff m.id m.id)
index_of-put_in (suc i) m (x ∷ xs) n le = ground (arith, n, le, index_of-put_in i m xs)

-- What reordering leaves: the same files, each as it was and of the kind that the queue takes, and
-- the moved one where the other one was.
pub record IsReordered (decimal : ℕ → Text) (active over : Text) (before after : List QueuedFile)
    : Type 0 where
  pub queued : IsQueued decimal after
  pub same_files : (p : QueuedFile → Bool) → count p after ≡ count p before
  pub moved : index_of active after ≡ index_of over before

module _ (decimal : ℕ → Text) where
  move-IsReordered :
      (active over : Text) (from to : ℕ) (xs : List QueuedFile)
      → IsQueued decimal xs
      → index_of active xs ≡ some from
      → index_of over xs ≡ some to
      → IsReordered decimal active over xs (move from to xs)
  unfolding move
  move-IsReordered active over from to xs q f t =
      let (m, taken, named, _, shorter) = index_of-take_out active from xs f in
      let (_, _, _, inside, _) = index_of-take_out over to xs t in
      let rest = (take_out from xs).1 in
      let (is_taken, once, kept) = take_out-IsQueued decimal from m xs taken q in
      let done : move from to xs ≡ put_in to m rest = ground (arith, taken) in
      subst (IsReordered decimal active over xs) (sym done) (record {
        queued = put_in-IsQueued decimal to m rest is_taken once kept;
        same_files =
            λ p. ground (arith, put_in-count p to m rest, take_out-count p from m xs taken);
        moved =
            ground
              (arith, t, named, index_of-put_in to m rest once (omega (arith, inside, shorter)));
      })

  -- A file is dragged to the place of another, in a queue whose files are of the kind it takes, each
  -- there once: it stands at the index that the other one had, and the queue has the same files as
  -- before, and each once, and the notice stays. Dragging a file to its own place changes nothing.
  pub reorder_files-IsReordered :
      (active over : Text) (from to : ℕ) (q : Queue)
      → IsQueued decimal q.files
      → index_of active q.files ≡ some from
      → index_of over q.files ≡ some to
      → IsReordered decimal active over q.files (reorder_files active over q).files
        × ((reorder_files active over q).notice ≡ q.notice)
        × (active ≡ over → reorder_files active over q ≡ q)
  unfolding reorder_files
  reorder_files-IsReordered active over from to q h f t =
      let Q : Queue → Type 0 = λ r.
        IsReordered decimal active over q.files r.files
        × (r.notice ≡ q.notice)
        × (active ≡ over → r ≡ q) in
      if-split Q (text_beq active over)
        (λ same. (
          record {
            queued = h;
            same_files = λ _. refl;
            moved = ap (λ k. index_of k q.files) ((text_beq_iff active over).0 same);
          },
          refl,
          λ _. refl,
        ))
        (λ other.
          option-split Q (index_of active q.files) (λ n. absurd (ground (arith, n, f)))
            (λ i f'.
              option-split Q (index_of over q.files) (λ n. absurd (ground (arith, n, t)))
                (λ j t'. (
                  move-IsReordered active over i j q.files h f' t',
                  refl,
                  λ e. absurd (ground (arith, other, e, text_beq_iff active over)),
                ))))

  -- Removing a file leaves the others as they were, in their order, and the queue's files are still of
  -- the kind that it takes, each there once.
  pub remove_file-IsQueued :
      (id : Text) (q : Queue)
      → IsQueued decimal q.files
      → let q' = remove_file id q in
        IsQueued decimal q'.files
        × (has_id id q'.files ≡ false)
        × ((k : Text) → k ≢ id → has_id k q'.files ≡ has_id k q.files)
  unfolding remove_file
  remove_file-IsQueued id q h = (
    filter-IsQueued decimal id q.files h,
    has_id-gone id q.files,
    λ k n. has_id-kept k id q.files n,
  )
