-- ===== src/Common/Prefixes.antt =====
-- Lists that grow at their end.
use Prim.Native.Nat.{ℕ}
use mathlib.Core.Path.{◌≡◌, refl, sym, ap, subst}
use mathlib.Core.List.{List, [], ◌∷◌, ◌++◌}
use synxor.Common.Lists.{add}
use synxor.Common.Splits.{if-split}
use synxor.Common.Tests.{◌==◌}

-- The second list is the first one with entries appended.
pub data IsPrefix {ℓ} {A : Type ℓ} : List A → List A → Type ℓ where
  appended : (xs rest : List A) → IsPrefix xs (xs ++ rest)

module _ {ℓ} {A : Type ℓ} where
  pub append_nil : (xs : List A) → xs ++ [] ≡ xs
  append_nil [] = refl
  append_nil (x ∷ xs) = ap (λ l. x ∷ l) (append_nil xs)

  pub append_assoc : (xs ys zs : List A) → (xs ++ ys) ++ zs ≡ xs ++ (ys ++ zs)
  append_assoc [] ys zs = refl
  append_assoc (x ∷ xs) ys zs = ap (λ l. x ∷ l) (append_assoc xs ys zs)

  pub IsPrefix-refl : (xs : List A) → IsPrefix xs xs
  IsPrefix-refl xs = subst (IsPrefix xs) (append_nil xs) (appended xs [])

  pub IsPrefix-trans : {xs ys zs : List A} → IsPrefix xs ys → IsPrefix ys zs → IsPrefix xs zs
  IsPrefix-trans (appended xs r) (appended _ q) =
      subst (IsPrefix xs) (sym (append_assoc xs r q)) (appended xs (r ++ q))

  pub IsPrefix-cons : (x : A) {xs ys : List A} → IsPrefix xs ys → IsPrefix (x ∷ xs) (x ∷ ys)
  IsPrefix-cons x (appended xs r) = appended (x ∷ xs) r

pub add-IsPrefix : (n : ℕ) (ms : List ℕ) → IsPrefix ms (add n ms)
add-IsPrefix n [] = appended [] (n ∷ [])
add-IsPrefix n (m ∷ ms) =
    if-split (IsPrefix (m ∷ ms)) (n == m) (λ _. IsPrefix-refl (m ∷ ms))
      (λ _. IsPrefix-cons m (add-IsPrefix n ms))
