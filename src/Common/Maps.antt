-- ===== src/Common/Maps.antt =====
-- A JavaScript `Map` as an association list in insertion order: `set` on a key that is present
-- replaces its value in place, `set` on a new key appends.
use mathlib.Core.Path.{◌≡◌, refl}
use mathlib.Core.Option.{Option, none, some}
use mathlib.Core.List.{List, [], ◌∷◌}
use native.Mathlib.Omega.{arith}
use synxor.Common.Tests.{Eq, if◌then◌else◌}

abbrev pub Dict {ℓ κ} : Type ℓ → Type κ → Type (ℓ ⊔ κ)
Dict K V = List (K × V)

-- `[...map.values()]`
abbrev pub values {ℓ κ} : {K : Type ℓ} {V : Type κ} → Dict K V → List V
values [] = []
values ((k, v) ∷ d) = v ∷ values d

module _ {ℓ κ} {K : Type ℓ} {V : Type κ} ⦃e : Eq K⦄ where
  -- `map.get(k)`
  abbrev pub lookup : K → Dict K V → Option V
  lookup k [] = none
  lookup k ((j, v) ∷ d) = if e.beq k j then some v else lookup k d

  -- `map.set(k, v)`
  abbrev pub insert : K → V → Dict K V → Dict K V
  insert k v [] = (k, v) ∷ []
  insert k v ((j, w) ∷ d) = if e.beq k j then (j, v) ∷ d else (j, w) ∷ insert k v d

  -- `map.delete(k)`; a key is listed once, and a second copy would go too.
  abbrev pub erase : K → Dict K V → Dict K V
  erase k [] = []
  erase k ((j, w) ∷ d) = if e.beq k j then erase k d else (j, w) ∷ erase k d

  pub lookup-insert :
      (k j : K) (v : V) (d : Dict K V)
      → lookup j (insert k v d) ≡ (if e.beq j k then some v else lookup j d)
  lookup-insert k j v [] = refl
  lookup-insert k j v ((i, w) ∷ d) =
      ground (arith, e.beq_iff k i, e.beq_iff j i, e.beq_iff j k, lookup-insert k j v d)

  pub lookup-erase :
      (k j : K) (d : Dict K V) → lookup j (erase k d) ≡ (if e.beq j k then none else lookup j d)
  lookup-erase k j [] = ground arith
  lookup-erase k j ((i, w) ∷ d) =
      ground (arith, e.beq_iff k i, e.beq_iff j i, e.beq_iff j k, lookup-erase k j d)

  -- No key is listed twice.
  abbrev pub IsKeyed : Dict K V → Type κ
  IsKeyed [] = Unit
  IsKeyed ((k, v) ∷ d) = (lookup k d ≡ none) × IsKeyed d

  pub insert-IsKeyed : (k : K) (v : V) (d : Dict K V) → IsKeyed d → IsKeyed (insert k v d)
  insert-IsKeyed k v [] h = (refl, tt)
  insert-IsKeyed k v ((j, w) ∷ d) h =
      ground (arith, e.beq_iff k j, e.beq_iff j k, insert-IsKeyed k v d h.1, lookup-insert k j v d)

  pub erase-IsKeyed : (k : K) (d : Dict K V) → IsKeyed d → IsKeyed (erase k d)
  erase-IsKeyed k [] h = tt
  erase-IsKeyed k ((j, w) ∷ d) h =
      ground (arith, e.beq_iff j k, erase-IsKeyed k d h.1, lookup-erase k j d)
