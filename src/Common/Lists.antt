-- ===== src/Common/Lists.antt =====
-- Lists measured by native numbers and searched by Boolean tests: the array methods `filter`,
-- `find`, `some` and the numbers that the program keeps in a `Set`.
use Prim.Native.Nat.{ℕ, zero, suc, ◌+◌, ◌-◌, ◌≤◌, min}
use mathlib.Core.Path.{◌≡◌, refl}
use mathlib.Core.Bool.{Bool, false, ◌||◌}
use mathlib.Core.List.{List, [], ◌∷◌, ◌++◌}
use mathlib.Core.Option.{Option, none, some}
use native.Mathlib.Omega.{arith}
use synxor.Common.Tests.{◌==◌, if◌then◌else◌}

module _ {ℓ} {A : Type ℓ} where
  abbrev pub length : List A → ℕ
  length [] = 0
  length (x ∷ xs) = suc (length xs)

  abbrev pub take : ℕ → List A → List A
  take zero xs = []
  take (suc n) [] = []
  take (suc n) (x ∷ xs) = x ∷ take n xs

  abbrev pub drop : ℕ → List A → List A
  drop zero xs = xs
  drop (suc n) [] = []
  drop (suc n) (x ∷ xs) = drop n xs

  pub take-append-drop : (n : ℕ) (xs : List A) → take n xs ++ drop n xs ≡ xs
  take-append-drop zero xs = refl
  take-append-drop (suc n) [] = refl
  take-append-drop (suc n) (x ∷ xs) = rw (take-append-drop n xs)

  pub length-take : (n : ℕ) (xs : List A) → length (take n xs) ≡ min n (length xs)
  length-take zero xs = omega arith
  length-take (suc n) [] = omega arith
  length-take (suc n) (x ∷ xs) = omega (arith, length-take n xs)

  pub length-drop : (n : ℕ) (xs : List A) → length (drop n xs) ≡ length xs - n
  length-drop zero xs = omega arith
  length-drop (suc n) [] = omega arith
  length-drop (suc n) (x ∷ xs) = omega (arith, length-drop n xs)

  pub length-append : (xs ys : List A) → length (xs ++ ys) ≡ length xs + length ys
  length-append [] ys = omega arith
  length-append (x ∷ xs) ys = omega (arith, length-append xs ys)

  -- Every element satisfies `P`.
  abbrev pub All {κ} : (A → Type κ) → List A → Type κ
  All P [] = Unit
  All P (x ∷ xs) = P x × All P xs

  -- `xs.filter(p)`
  abbrev pub filter : (A → Bool) → List A → List A
  filter p [] = []
  filter p (x ∷ xs) = if p x then x ∷ filter p xs else filter p xs

  -- `xs.find(p)`
  abbrev pub find : (A → Bool) → List A → Option A
  find p [] = none
  find p (x ∷ xs) = if p x then some x else find p xs

  -- `xs.some(p)`
  abbrev pub any : (A → Bool) → List A → Bool
  any p [] = false
  any p (x ∷ xs) = p x || any p xs

  pub length-filter-le : (p : A → Bool) (xs : List A) → length (filter p xs) ≤ length xs
  length-filter-le p [] = omega arith
  length-filter-le p (x ∷ xs) = ground (arith, length-filter-le p xs)

-- `set.has(n)` on a `Set<number>` kept as the list of its members.
abbrev pub has : ℕ → List ℕ → Bool
has n [] = false
has n (m ∷ ms) = n == m || has n ms

-- `set.add(n)`: a member that is already present stays where it is.
abbrev pub add : ℕ → List ℕ → List ℕ
add n [] = n ∷ []
add n (m ∷ ms) = if n == m then m ∷ ms else m ∷ add n ms

pub has-add : (n k : ℕ) (ms : List ℕ) → has k (add n ms) ≡ (k == n || has k ms)
has-add n k [] = ground arith
has-add n k (m ∷ ms) = ground (arith, has-add n k ms)

-- No number is listed twice.
abbrev pub IsDistinct : List ℕ → Type 0
IsDistinct [] = Unit {0}
IsDistinct (m ∷ ms) = (has m ms ≡ false) × IsDistinct ms

pub add-IsDistinct : (n : ℕ) (ms : List ℕ) → IsDistinct ms → IsDistinct (add n ms)
add-IsDistinct n [] h = (refl, tt)
add-IsDistinct n (m ∷ ms) h = ground (arith, add-IsDistinct n ms h.1, has-add n m ms)

pub length-add :
    (n : ℕ) (ms : List ℕ) → length (add n ms) ≡ (if has n ms then length ms else suc (length ms))
length-add n [] = ground arith
length-add n (m ∷ ms) = ground (arith, length-add n ms)
