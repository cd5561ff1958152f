-- ===== src/Participant/Identity/Keys.antt =====
-- The key of an identity, which is the hash in base 36.
use mathlib.Core.List.{foldl}
use native.Mathlib.Numerals.{unary_clauses}
use synxor.Common.{
  ℕ, zero, suc, ◌+◌, ◌-◌, ◌*◌, ◌/◌, ◌%◌, ◌^◌, ◌<◌, ◌≡◌, refl, sym, ap, ◌∙◌, ltb, if◌then◌else◌,
  Option, [], ◌∷◌, ◌++◌, Text, arith,
}
use synxor.Participant.Identity.{fnv1a_step, fnv1a, digit36, to_base36, derive_identity}

-- `parseInt(s, 36)` on the digits that `toString(36)` writes, from the value read so far.
of_base36 : ℕ → Text → ℕ
of_base36 n [] = n
of_base36 n (c ∷ s) = of_base36 (n * 36 + (if ltb c 58 then c - 48 else c - 87)) s

of_base36-append : (n : ℕ) (s t : Text) → of_base36 n (s ++ t) ≡ of_base36 (of_base36 n s) t
unfolding of_base36
of_base36-append n [] t = refl
of_base36-append n (c ∷ s) t = of_base36-append (n * 36 + (if ltb c 58 then c - 48 else c - 87)) s t

of_base36-digit : (n d : ℕ) → d < 36 → of_base36 n (digit36 d ∷ []) ≡ n * 36 + d
unfolding of_base36
of_base36-digit n d h = ground arith

of_base36-to_base36 : (fuel n : ℕ) → n < 36 ^ fuel → of_base36 0 (to_base36 fuel n) ≡ n
unfolding to_base36 of_base36
of_base36-to_base36 zero n h = let e : n ≡ 0 = omega arith in rw e
of_base36-to_base36 (suc fuel) n h =
    let power : 36 ^ suc fuel ≡ 36 ^ fuel * 36 = simp unary_clauses in
    let low : n / 36 < 36 ^ fuel = omega arith in
    let digit : n % 36 < 36 = omega arith in
    ground (
      arith,
      of_base36-digit 0 n,
      of_base36-to_base36 fuel (n / 36) low,
      of_base36-append 0 (to_base36 fuel (n / 36)) (digit36 (n % 36) ∷ []),
      of_base36-digit (n / 36) (n % 36) digit,
    )

foldl-bounded : (s : Text) (h : ℕ) → h < 2 ^ 32 → foldl fnv1a_step h s < 2 ^ 32
foldl-bounded [] h lt = lt
foldl-bounded (c ∷ s) h lt = foldl-bounded s (fnv1a_step h c) (omega arith)

fnv1a-bounded : (s : Text) → fnv1a s < 36 ^ 7
unfolding fnv1a
fnv1a-bounded s = omega (arith, foldl-bounded s 0x811c9dc5 (omega arith))

-- Two Room Tokens with the same key have the same hash, and so the same colour.
pub derive_identity-key :
    (hash hash' : Text) (name name' : Option Text)
    → (derive_identity hash name).key ≡ (derive_identity hash' name').key
    → (fnv1a hash ≡ fnv1a hash')
      × ((derive_identity hash name).color_key ≡ (derive_identity hash' name').color_key)
unfolding derive_identity
derive_identity-key hash hash' name name' h =
    let same : fnv1a hash ≡ fnv1a hash' =
      sym (of_base36-to_base36 7 (fnv1a hash) (fnv1a-bounded hash))
      ∙ ap (of_base36 0) h
      ∙ of_base36-to_base36 7 (fnv1a hash') (fnv1a-bounded hash') in
    (same, rw same)
