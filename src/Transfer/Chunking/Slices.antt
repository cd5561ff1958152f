-- ===== src/Transfer/Chunking/Slices.antt =====
-- The parts into which a file is cut, `file.slice(i * size, (i + 1) * size)`, and what they make
-- when they are joined in order.
use Prim.Native.Nat.add
use synxor.Common.{
  ℕ, zero, suc, ◌+◌, ◌-◌, ◌*◌, ◌≤◌, min, ◌≡◌, refl, ap, ◌∙◌, List, [], ◌∷◌, ◌++◌, arith, length,
  take, drop, length-take, length-drop,
}

module _ {ℓ} {A : Type ℓ} where
  pub drop-drop : (m n : ℕ) (xs : List A) → drop m (drop n xs) ≡ drop (n + m) xs
  drop-drop m zero xs = rw (add.zero m)
  drop-drop zero (suc n) [] = rw (add.suc n zero)
  drop-drop (suc m) (suc n) [] = rw (add.suc n (suc m))
  drop-drop m (suc n) (x ∷ xs) = rw (add.suc n m) (drop-drop m n xs)

  pub take-add : (m n : ℕ) (xs : List A) → take (m + n) xs ≡ take m xs ++ take n (drop m xs)
  take-add zero n xs = rw (add.zero n)
  take-add (suc m) zero [] = rw (add.suc m zero)
  take-add (suc m) (suc n) [] = rw (add.suc m (suc n))
  take-add (suc m) n (x ∷ xs) = rw (add.suc m n) (ap (◌∷◌ x) (take-add m n xs))

  pub take_all : (n : ℕ) (xs : List A) → length xs ≤ n → take n xs ≡ xs
  take_all zero [] h = refl
  take_all zero (x ∷ xs) h = absurd (omega arith)
  take_all (suc n) [] h = refl
  take_all (suc n) (x ∷ xs) h = ap (◌∷◌ x) (take_all n xs (omega arith))

  -- The part with index `i`, of `size` elements or up to the end.
  unfoldable pub slice : ℕ → ℕ → List A → List A
  slice size i xs = take size (drop (i * size) xs)

  -- The parts `from`, …, `from + n - 1` joined.
  unfoldable pub join : ℕ → ℕ → ℕ → List A → List A
  unfolding slice
  join size from zero xs = []
  join size from (suc n) xs = slice size from xs ++ join size (from + 1) n xs

  join-eq-take :
      (size from n : ℕ) (xs : List A)
      → join size from n xs ≡ take (n * size) (drop (from * size) xs)
  unfolding join
  join-eq-take size from zero xs = let e : zero * size ≡ 0 = omega arith in rw e
  join-eq-take size from (suc n) xs =
      let e : suc n * size ≡ size + n * size = omega arith in
      let d : (from + 1) * size ≡ from * size + size = omega arith in
      rw (
        e,
        take-add size (n * size) (drop (from * size) xs),
        drop-drop size (from * size) xs,
        join-eq-take size (from + 1) n xs,
        d,
      )

  -- Enough parts from the first on give the whole list back.
  pub join_all : (size n : ℕ) (xs : List A) → length xs ≤ n * size → join size 0 n xs ≡ xs
  join_all size n xs h =
      let e : 0 * size ≡ 0 = omega arith in
      join-eq-take size 0 n xs ∙ rw e (take_all (n * size) xs h)

  pub length-slice :
      (size i : ℕ) (xs : List A) → length (slice size i xs) ≡ min size (length xs - i * size)
  unfolding slice
  length-slice size i xs = rw (length-take size (drop (i * size) xs), length-drop (i * size) xs)
