-- ===== src/Participant/Identity.antt =====
-- apps/api/src/domain/participant/participant-identity.ts: the display identity that is derived
-- from a Room Token's hash, and the cleaning of edited names. A hash is an unsigned 32-bit number:
-- the source's intermediate signed values have the same bit patterns.
pub mod Overrides
pub mod Keys
use Prim.Native.Nat.{bit_xor}
use mathlib.Core.List.{foldl, reverse}
use synxor.Common.{
  ℕ, zero, suc, ◌+◌, ◌-◌, ◌*◌, ◌/◌, ◌%◌, ◌^◌, Bool, true, false, ◌||◌, ◌&&◌, leb, ltb, ◌==◌,
  if◌then◌else◌, Option, none, some, List, [], ◌∷◌, ◌++◌, length, take, Text, codes,
}

pub record ParticipantIdentity : Type 0 where
  pub key : Text
  pub color_key : Text
  pub name : Text

pub record Colour : Type 0 where
  pub key : Text
  pub word : Text

abbrev colour : Text → Text → Colour
colour k w = record { key = k; word = w }

abbrev pub identity_palette : List Colour
identity_palette =
    colour (codes "violet") (codes "Violet")
    ∷ colour (codes "indigo") (codes "Indigo")
    ∷ colour (codes "plum") (codes "Plum")
    ∷ colour (codes "magenta") (codes "Magenta")
    ∷ colour (codes "rose") (codes "Rose")
    ∷ colour (codes "coral") (codes "Coral")
    ∷ colour (codes "amber") (codes "Amber")
    ∷ colour (codes "gold") (codes "Gold")
    ∷ []

abbrev pub identity_nouns : List Text
identity_nouns =
    codes "Heron"
    ∷ codes "Otter"
    ∷ codes "Falcon"
    ∷ codes "Marten"
    ∷ codes "Lynx"
    ∷ codes "Sparrow"
    ∷ codes "Ibis"
    ∷ codes "Wren"
    ∷ codes "Osprey"
    ∷ codes "Kestrel"
    ∷ codes "Puffin"
    ∷ codes "Tanager"
    ∷ codes "Vireo"
    ∷ codes "Sable"
    ∷ codes "Ermine"
    ∷ codes "Badger"
    ∷ codes "Beaver"
    ∷ codes "Grebe"
    ∷ codes "Plover"
    ∷ codes "Finch"
    ∷ []

abbrev pub max_display_name_chars : ℕ
max_display_name_chars = 40

-- One turn of the loop: exclusive or with the code unit, then the low 32 bits of the product.
abbrev pub fnv1a_step : ℕ → ℕ → ℕ
fnv1a_step hash unit = (bit_xor hash unit * 0x01000193) % 2 ^ 32

unfoldable pub fnv1a : Text → ℕ
fnv1a input = foldl fnv1a_step 0x811c9dc5 input

-- The code units that the regular expression `\s` and `trim` take for white space.
unfoldable pub is_space : ℕ → Bool
is_space c =
    (leb 9 c && leb c 13)
    || c == 32
    || c == 160
    || c == 0x1680
    || (leb 0x2000 c && leb c 0x200a)
    || c == 0x2028
    || c == 0x2029
    || c == 0x202f
    || c == 0x205f
    || c == 0x3000
    || c == 0xfeff

-- `replace(/\s+/g, ' ')`: `gap` says that a run of white space is under way and written out.
unfoldable pub collapse : Bool → Text → Text
collapse gap [] = []
collapse gap (c ∷ s) =
    let rest = collapse (is_space c) s in
    if is_space c then if gap then rest else 32 ∷ rest else c ∷ rest

-- `trim()` from the left, and from both ends.
unfoldable pub trim_start : Text → Text
trim_start [] = []
trim_start (c ∷ s) = if is_space c then trim_start s else c ∷ s

unfoldable pub trim : Text → Text
unfolding trim_start
trim s = reverse (trim_start (reverse (trim_start s)))

-- `none` stands for `null` and `undefined`.
unfoldable pub sanitize_display_name : Option Text → Option Text
unfolding trim collapse
sanitize_display_name none = none
sanitize_display_name (some name) = elim (trim (collapse false name)) [
  | [] ↦ none
  | c ∷ s ↦ some (take max_display_name_chars (c ∷ s))
]

-- One digit of `toString(36)`.
abbrev pub digit36 : ℕ → ℕ
digit36 d = if ltb d 10 then 48 + d else 87 + d

-- `hash.toString(36)` with room for `fuel` digits; seven are enough below 2 ^ 32.
unfoldable pub to_base36 : ℕ → ℕ → Text
to_base36 zero n = []
to_base36 (suc fuel) n =
    let rest = to_base36 fuel (n / 36) in
    if ltb n 36 then digit36 n ∷ [] else rest ++ digit36 (n % 36) ∷ []

-- Array access at an index that is in range.
abbrev pub at {ℓ} : {A : Type ℓ} → List A → ℕ → A → A
at [] i d = d
at (x ∷ xs) zero d = x
at (x ∷ xs) (suc i) d = at xs i d

unfoldable pub derive_identity : Text → Option Text → ParticipantIdentity
unfolding fnv1a to_base36 sanitize_display_name
derive_identity stable_key display_name =
    let colour_hash = fnv1a stable_key in
    let noun_hash = fnv1a (stable_key ++ codes " noun") in
    let c = at identity_palette (colour_hash % 8) (colour [] []) in
    let noun = at identity_nouns (noun_hash % 20) [] in
    record {
      key = to_base36 7 colour_hash;
      color_key = c.key;
      name = elim (sanitize_display_name display_name) [
        | none ↦ c.word ++ 32 ∷ noun
        | some override ↦ override
      ];
    }
