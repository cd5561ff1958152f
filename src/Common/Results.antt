-- ===== src/Common/Results.antt =====
-- What an async method yields: a value, or the error that it rejects with.
use mathlib.Core.Bool.{Bool, true, false}
use mathlib.Core.Option.{Option, none, some}

pub data Result {ℓ κ} (E : Type κ) (A : Type ℓ) : Type (ℓ ⊔ κ) where
  ok : A → Result E A
  err : E → Result E A

infixl 5 ◌>>=◌ ◌>>◌
abbrev pub ◌>>=◌ {ℓ κ μ} :
    {E : Type μ} {A : Type ℓ} {B : Type κ} → Result E A → (A → Result E B) → Result E B
ok a >>= f = f a
err e >>= f = err e

abbrev pub ◌>>◌ {κ μ} : {E : Type μ} {B : Type κ} → Result E (Unit {0}) → Result E B → Result E B
m >> k = m >>= λ _. k

-- `if (test) throw e`
abbrev pub throw_if {μ} : {E : Type μ} → Bool → E → Result E (Unit {0})
throw_if true e = err e
throw_if false e = ok tt

-- `if (!value) throw e`
abbrev pub or_throw {ℓ μ} : {E : Type μ} {A : Type ℓ} → Option A → E → Result E A
or_throw none e = err e
or_throw (some a) e = ok a
