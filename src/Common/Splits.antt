-- ===== src/Common/Splits.antt =====
-- Case splits on a test, an optional value, a result and a list.
use mathlib.Core.Path.{◌≡◌, refl}
use mathlib.Core.Bool.{Bool, true, false}
use mathlib.Core.List.{List, [], ◌∷◌}
use mathlib.Core.Option.{Option, none, some}
use synxor.Common.Tests.{if◌then◌else◌}
use synxor.Common.Results.{Result, ok, err}

module _ {ℓ κ} {B : Type ℓ} (Q : B → Type κ) where
  pub if-split :
      (b : Bool) {x y : B} → (b ≡ true → Q x) → (b ≡ false → Q y) → Q (if b then x else y)
  if-split true h k = h refl
  if-split false h k = k refl

  pub option-split {μ} :
      {V : Type μ} (o : Option V) {x : B} {f : V → B}
      → (o ≡ none → Q x)
      → ((v : V) → o ≡ some v → Q (f v))
      → Q (elim o [ none ↦ x | some v ↦ f v ])
  option-split none h k = h refl
  option-split (some v) h k = k v refl

  pub result-split {μ ν} :
      {E : Type μ} {V : Type ν} (r : Result E V) {f : E → B} {h : V → B}
      → ((e : E) → r ≡ err e → Q (f e))
      → ((v : V) → r ≡ ok v → Q (h v))
      → Q (elim r [ err e ↦ f e | ok v ↦ h v ])
  result-split (err e) k l = k e refl
  result-split (ok v) k l = l v refl

  pub list-split {μ} :
      {V : Type μ} (xs : List V) {x : B} {f : V → List V → B}
      → (xs ≡ [] → Q x)
      → ((v : V) (vs : List V) → xs ≡ v ∷ vs → Q (f v vs))
      → Q (elim xs [ [] ↦ x | v ∷ vs ↦ f v vs ])
  list-split [] h k = h refl
  list-split (v ∷ vs) h k = k v vs refl
