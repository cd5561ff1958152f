-- ===== src/Common/Texts.antt =====
-- JavaScript text as the list of its UTF-16 code units.
use Prim.Native.Char.{code}
use Prim.Native.String.{String}
use Prim.Native.Nat.{ℕ}
use mathlib.Core.Path.{◌≡◌, refl}
use mathlib.Core.Logic.{◌↔◌}
use mathlib.Core.Bool.{Bool, true, false, ◌&&◌}
use mathlib.Core.List.{List, [], ◌∷◌}
use native.Mathlib.Omega.{arith}
use synxor.Common.Tests.{◌==◌, Eq}

abbrev pub Text : Type 0
Text = List ℕ

-- A text literal of the source, all of whose characters are ASCII.
abbrev pub codes : String → Text
codes String.[] = []
codes (String.◌∷◌ c s) = code c ∷ codes s

-- `a === b` on texts
abbrev pub text_beq : Text → Text → Bool
text_beq [] [] = true
text_beq [] (d ∷ t) = false
text_beq (c ∷ s) [] = false
text_beq (c ∷ s) (d ∷ t) = c == d && text_beq s t

pub text_beq_iff : (s t : Text) → (text_beq s t ≡ true) ↔ (s ≡ t)
text_beq_iff [] [] = (λ h. refl, λ h. refl)
text_beq_iff [] (d ∷ t) = (λ h. cc, λ h. cc)
text_beq_iff (c ∷ s) [] = (λ h. cc, λ h. cc)
text_beq_iff (c ∷ s) (d ∷ t) =
    (λ h. ground (arith, text_beq_iff s t), λ h. ground (arith, text_beq_iff s t))

instance abbrev pub text_eq : Eq Text
text_eq = record { beq = text_beq; beq_iff = text_beq_iff }
