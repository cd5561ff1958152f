-- ===== src/Common/Sort.antt =====
-- `array.sort(compare)`, which is stable: an element goes before the first one that it does not
-- exceed. The test says that the first argument does not exceed the second.
use Prim.Native.Nat.{ℕ, ◌≤◌}
use mathlib.Core.Bool.{Bool}
use native.Mathlib.Omega.{arith}
use mathlib.Core.List.{List, [], ◌∷◌}
use synxor.Common.Tests.{leb, if◌then◌else◌}

module _ {ℓ} {A : Type ℓ} (le : A → A → Bool) where
  pub insert_sorted : A → List A → List A
  insert_sorted x [] = x ∷ []
  insert_sorted x (y ∷ ys) = if le x y then x ∷ y ∷ ys else y ∷ insert_sorted x ys

  unfoldable pub sort : List A → List A
  unfolding insert_sorted
  sort [] = []
  sort (x ∷ xs) = insert_sorted x (sort xs)

module _ {ℓ} {A : Type ℓ} (key : A → ℕ) where
  -- No key is below the one before it.
  abbrev pub IsSorted : List A → Type 0
  IsSorted [] = Unit {0}
  IsSorted (x ∷ []) = Unit {0}
  IsSorted (x ∷ y ∷ ys) = (key x ≤ key y) × IsSorted (y ∷ ys)

  insert_sorted-IsSorted :
      (x : A) (xs : List A)
      → IsSorted xs
      → IsSorted (insert_sorted (λ a b. leb (key a) (key b)) x xs)
  unfolding insert_sorted
  insert_sorted-IsSorted x [] h = tt
  insert_sorted-IsSorted x (y ∷ []) h = ground arith
  insert_sorted-IsSorted x (y ∷ z ∷ zs) h = ground (arith, insert_sorted-IsSorted x (z ∷ zs) h.1)

  pub sort-IsSorted : (xs : List A) → IsSorted (sort (λ a b. leb (key a) (key b)) xs)
  unfolding sort
  sort-IsSorted [] = tt
  sort-IsSorted (x ∷ xs) =
      insert_sorted-IsSorted x (sort (λ a b. leb (key a) (key b)) xs) (sort-IsSorted xs)
