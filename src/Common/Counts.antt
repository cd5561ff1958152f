-- ===== src/Common/Counts.antt =====
-- How many values of a map pass a test, and what holds of all of them, as the map changes.
use Prim.Native.Nat.{ℕ, ◌+◌}
use mathlib.Core.Path.{◌≡◌, refl, subst}
use mathlib.Core.Bool.{Bool, true, false, ◌||◌}
use mathlib.Core.Option.{Option, none, some}
use mathlib.Core.List.{List, [], ◌∷◌}
use native.Mathlib.Omega.{arith}
use synxor.Common.Tests.{Eq, if◌then◌else◌}
use synxor.Common.Lists.{length, filter, All, any}
use synxor.Common.Maps.{Dict, values, lookup, insert, erase, IsKeyed}

abbrev pub count {ℓ} : {A : Type ℓ} → (A → Bool) → List A → ℕ
count p xs = length (filter p xs)

module _ {ℓ κ} {K : Type ℓ} {V : Type κ} ⦃e : Eq K⦄ (p : V → Bool) where
  pub count-insert_fresh :
      (k : K) (v : V) (d : Dict K V)
      → lookup k d ≡ none
      → count p (values (insert k v d)) ≡ count p (values d) + (if p v then 1 else 0)
  count-insert_fresh k v [] h = ground arith
  count-insert_fresh k v ((j, w) ∷ d) h = ground (arith, count-insert_fresh k v d)

  pub count-insert_over :
      (k : K) (v w : V) (d : Dict K V)
      → lookup k d ≡ some w
      → count p (values (insert k v d)) + (if p w then 1 else 0)
        ≡ count p (values d) + (if p v then 1 else 0)
  count-insert_over k v w [] h = cc
  count-insert_over k v w ((j, x) ∷ d) h = ground (arith, count-insert_over k v w d)

  erase-fresh : (k : K) (d : Dict K V) → lookup k d ≡ none → erase k d ≡ d
  erase-fresh k [] h = refl
  erase-fresh k ((j, x) ∷ d) h = ground (arith, erase-fresh k d)

  pub count-erase :
      (k : K) (v : V) (d : Dict K V)
      → IsKeyed d
      → lookup k d ≡ some v
      → count p (values d) ≡ count p (values (erase k d)) + (if p v then 1 else 0)
  count-erase k v [] keyed h = cc
  count-erase k v ((j, x) ∷ d) keyed h =
      ground (arith, count-erase k v d keyed.1, e.beq_iff k j, erase-fresh k d)

some_injective {κ} : {V : Type κ} (x v : V) → some x ≡ some v → x ≡ v
some_injective x v h = cc

-- What holds of both branches holds of the conditional.
pub if-both {ℓ κ} :
    {A : Type ℓ} (Q : A → Type κ) (b : Bool) {x y : A} → Q x → Q y → Q (if b then x else y)
if-both Q true h k = h
if-both Q false h k = k

module _ {ℓ κ μ} {K : Type ℓ} {V : Type κ} ⦃e : Eq K⦄ (P : V → Type μ) where
  pub All-insert :
      (k : K) (v : V) (d : Dict K V) → All P (values d) → P v → All P (values (insert k v d))
  All-insert k v [] h pv = (pv, tt)
  All-insert k v ((j, x) ∷ d) h pv =
      if-both (λ d'. All P (values d')) (e.beq k j) (pv, h.1) (h.0, All-insert k v d h.1 pv)

  pub All-erase : (k : K) (d : Dict K V) → All P (values d) → All P (values (erase k d))
  All-erase k [] h = tt
  All-erase k ((j, x) ∷ d) h =
      let rest = All-erase k d h.1 in if-both (λ d'. All P (values d')) (e.beq k j) rest (h.0, rest)

  pub All-lookup : (k : K) (v : V) (d : Dict K V) → All P (values d) → lookup k d ≡ some v → P v
  All-lookup k v [] h l = absurd cc
  All-lookup k v ((j, x) ∷ d) h l =
      if-both (λ (o : Option V). o ≡ some v → P v) (e.beq k j)
        (λ l'. subst P (some_injective x v l') h.0) (λ l'. All-lookup k v d h.1 l') l

pub All-mono {ℓ κ μ} :
    {A : Type ℓ} (P : A → Type κ) (Q : A → Type μ) (xs : List A)
    → ((x : A) → P x → Q x)
    → All P xs
    → All Q xs
All-mono P Q [] f h = tt
All-mono P Q (x ∷ xs) f h = (f x h.0, All-mono P Q xs f h.1)

-- Whether a map has a key.
abbrev pub has_key {ℓ κ} : {K : Type ℓ} {V : Type κ} → ⦃e : Eq K⦄ → K → Dict K V → Bool
has_key k d = elim (lookup k d) [ none ↦ false | some v ↦ true ]

module _ {ℓ κ} {K : Type ℓ} {V : Type κ} ⦃e : Eq K⦄ (p : V → Bool) where
  pub any-insert_fresh :
      (k : K) (v : V) (d : Dict K V)
      → lookup k d ≡ none
      → any p (values (insert k v d)) ≡ (any p (values d) || p v)
  any-insert_fresh k v [] h = ground arith
  any-insert_fresh k v ((j, w) ∷ d) h = ground (arith, any-insert_fresh k v d)

  pub any-insert_same :
      (k : K) (v w : V) (d : Dict K V)
      → lookup k d ≡ some w
      → p v ≡ p w
      → any p (values (insert k v d)) ≡ any p (values d)
  any-insert_same k v w [] h s = cc
  any-insert_same k v w ((j, x) ∷ d) h s = ground (arith, any-insert_same k v w d)

  pub any-erase :
      (k : K) (v : V) (d : Dict K V)
      → IsKeyed d
      → lookup k d ≡ some v
      → any p (values d) ≡ (any p (values (erase k d)) || p v)
  any-erase k v [] keyed h = cc
  any-erase k v ((j, x) ∷ d) keyed h =
      ground (arith, any-erase k v d keyed.1, e.beq_iff k j, erase-fresh p k d)
