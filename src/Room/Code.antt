-- ===== src/Room/Code.antt =====
-- Room Codes: apps/api/src/infrastructure/security/crypto-code-generator.ts draws them, with the
-- alphabet and the length of apps/api/src/domain/room/room-code.ts, and
-- apps/web/src/features/room/utils/room-code.ts cleans what someone enters. The random bytes are a
-- list: the bytes of one batch after the other.
pub mod Entry
use synxor.Common.{
  ℕ, ◌+◌, ◌-◌, ◌*◌, ◌/◌, ◌%◌, Bool, ◌&&◌, ◌||◌, leb, ltb, ◌==◌, if◌then◌else◌, Option, none, some,
  List, [], ◌∷◌, ◌++◌, length, drop, filter, map, Text, codes,
}
use synxor.Participant.Identity.{at}

abbrev pub room_code_alphabet : Text
room_code_alphabet = codes "ABCDEFGHIJKLMNOPQRSTUVWXYZ0123456789"

abbrev pub room_code_length : ℕ
room_code_length = 6

abbrev pub byte_value_count : ℕ
byte_value_count = 256

abbrev pub rejection_threshold : ℕ
rejection_threshold = byte_value_count / 36 * 36

-- `ROOM_CODE_ALPHABET[byte % ROOM_CODE_ALPHABET.length]`
unfoldable pub symbol : ℕ → ℕ
symbol byte = at room_code_alphabet (byte % 36) 0

-- The loop, with the code so far; `none` when more bytes are asked for than the list has.
unfoldable pub generate_from : Text → List ℕ → Option Text
generate_from code [] = if ltb (length code) room_code_length then none else some code
generate_from code (byte ∷ bytes) =
    let accepted = generate_from (code ++ symbol byte ∷ []) bytes in
    let rejected = generate_from code bytes in
    if ltb (length code) room_code_length
    then if ltb byte rejection_threshold then accepted else rejected
    else some code

unfoldable pub generate : List ℕ → Option Text
unfolding generate_from
generate bytes = generate_from [] bytes

abbrev pub is_digit : ℕ → Bool
is_digit c = leb 48 c && leb c 57

abbrev pub is_upper : ℕ → Bool
is_upper c = leb 65 c && leb c 90

abbrev pub is_lower : ℕ → Bool
is_lower c = leb 97 c && leb c 122

-- `toUpperCase` on the characters that are left, which are ASCII.
abbrev pub to_upper : ℕ → ℕ
to_upper c = if is_lower c then c - 32 else c

-- `s.slice(-6)`
abbrev pub last_six : Text → Text
last_six s = drop (length s - room_code_length) s

unfoldable pub sanitize_room_code : Text → Text
sanitize_room_code raw =
    last_six (map to_upper (filter (λ c. is_digit c || is_upper c || is_lower c) raw))
