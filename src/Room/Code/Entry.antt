-- ===== src/Room/Code/Entry.antt =====
-- Codes as they are drawn, and as they are entered.
use synxor.Common.{
  ℕ, zero, suc, ◌+◌, ◌-◌, ◌%◌, ◌≤◌, ◌<◌, ◌≡◌, ◌≢◌, Option-cases, inl, inr, refl, Bool, true, ◌&&◌,
  ◌||◌, ltb, none, some, List, [], ◌∷◌, ◌++◌, length, length-append, drop, filter, map, Text, arith,
}
use synxor.Participant.Identity.{at}
use synxor.Room.Code.{
  room_code_alphabet, room_code_length, rejection_threshold, symbol, generate_from, generate,
  is_digit, is_upper, is_lower, to_upper, last_six, sanitize_room_code,
}

unfoldable pub all : (ℕ → Bool) → Text → Bool
all p [] = true
all p (c ∷ s) = p c && all p s

abbrev pub is_code_char : ℕ → Bool
is_code_char c = is_digit c || is_upper c

-- `ROOM_CODE_PATTERN`: six characters, each an upper-case letter or a digit.
pub record IsRoomCode (s : Text) : Type 0 where
  pub six : length s ≡ room_code_length
  pub symbols : all is_code_char s ≡ true

all-at : (p : ℕ → Bool) (s : Text) (i : ℕ) → all p s ≡ true → i < length s → p (at s i 0) ≡ true
unfolding all
all-at p [] i h lt = absurd (omega arith)
all-at p (c ∷ s) zero h lt = ground arith
all-at p (c ∷ s) (suc i) h lt = all-at p s i (ground arith) (omega arith)

symbol-is_code_char : (b : ℕ) → is_code_char (symbol b) ≡ true
unfolding symbol all
symbol-is_code_char b = all-at is_code_char room_code_alphabet (b % 36) refl (omega arith)

all-snoc : (p : ℕ → Bool) (s : Text) (c : ℕ) → all p (s ++ c ∷ []) ≡ (all p s && p c)
unfolding all
all-snoc p [] c = ground arith
all-snoc p (d ∷ s) c = ground (arith, all-snoc p s c)

generate_from-IsRoomCode :
    (code : Text) (bytes : List ℕ) (s : Text)
    → length code ≤ room_code_length
    → all is_code_char code ≡ true
    → generate_from code bytes ≡ some s
    → (length s ≡ room_code_length) × (all is_code_char s ≡ true)
unfolding generate_from
generate_from-IsRoomCode code [] s le h e = ground arith
generate_from-IsRoomCode code (b ∷ bytes) s le h e = ground (
  arith,
  generate_from-IsRoomCode (code ++ symbol b ∷ []) bytes s,
  generate_from-IsRoomCode code bytes s,
  all-snoc is_code_char code (symbol b),
  symbol-is_code_char b,
  length-append code (symbol b ∷ []),
)

-- How many of the bytes the generator can use.
unfoldable pub usable : List ℕ → ℕ
usable bytes = length (filter (λ b. ltb b rejection_threshold) bytes)

generate_from-returns :
    (code : Text) (bytes : List ℕ)
    → room_code_length ≤ length code + usable bytes
    → generate_from code bytes ≢ none
unfolding generate_from usable
generate_from-returns code [] h e = absurd (ground arith)
generate_from-returns code (b ∷ bytes) h e = absurd (
    ground (
      arith,
      generate_from-returns (code ++ symbol b ∷ []) bytes,
      generate_from-returns code bytes,
      length-append code (symbol b ∷ []),
    ))

-- Six bytes below the threshold, wherever they come, are enough for a code, and it has the format
-- of a Room Code.
pub generate-IsRoomCode :
    (bytes : List ℕ)
    → room_code_length ≤ usable bytes
    → (s : Text) × (generate bytes ≡ some s) × IsRoomCode s
unfolding generate all
generate-IsRoomCode bytes enough = elim (Option-cases (generate_from [] bytes)) [
  | inl e ↦ absurd (generate_from-returns [] bytes (omega arith) e)
  | inr (s, e) ↦
      let l = generate_from-IsRoomCode [] bytes s (omega arith) refl e in
      (s, e, record { six = l.0; symbols = l.1 })
]

append_symbols :
    (s : Text)
    → all is_code_char s ≡ true
    → map to_upper (filter (λ c. is_digit c || is_upper c || is_lower c) s) ≡ s
unfolding all
append_symbols [] h = refl
append_symbols (c ∷ s) h = ground (arith, append_symbols s)

cleaned-append :
    (r s : Text)
    → map to_upper (filter (λ c. is_digit c || is_upper c || is_lower c) (r ++ s))
      ≡ map to_upper (filter (λ c. is_digit c || is_upper c || is_lower c) r)
        ++ map to_upper (filter (λ c. is_digit c || is_upper c || is_lower c) s)
cleaned-append [] s = refl
cleaned-append (c ∷ r) s = ground (arith, cleaned-append r s)

drop-append : (r s : Text) → drop (length r) (r ++ s) ≡ s
drop-append [] s = refl
drop-append (c ∷ r) s = drop-append r s

last_six-append : (r s : Text) → length s ≡ room_code_length → last_six (r ++ s) ≡ s
last_six-append r s h =
    let n : length (r ++ s) - room_code_length ≡ length r = omega (arith, length-append r s) in
    rw n (drop-append r s)

-- A code is read off the end of whatever is pasted with it, such as the link to its Room.
pub sanitize_room_code_pasted :
    (before code : Text) → IsRoomCode code → sanitize_room_code (before ++ code) ≡ code
unfolding sanitize_room_code
sanitize_room_code_pasted before code h =
    rw (cleaned-append before code, append_symbols code h.symbols)
      (last_six-append (map to_upper (filter (λ c. is_digit c || is_upper c || is_lower c) before))
        code h.six)
