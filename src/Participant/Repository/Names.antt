-- ===== src/Participant/Repository/Names.antt =====
-- The name that belongs to a Room Token, kept on each of its rows.
use synxor.Common.{
  ℕ, ◌≡◌, true, ◌&&◌, ◌==◌, if◌then◌else◌, Option, none, [], ◌∷◌, any, Text, text_beq, text_beq_iff,
  Dict, values, arith,
}
use synxor.Participant.Entity.{Participant}
use synxor.Participant.Repository.{
  ParticipantRepository, is_identity, first_name, find_display_name, rename_rows, set_display_name,
}

is_identity_other :
    (room room' : ℕ) (hash hash' : Text) (p : Participant)
    → is_identity room hash p ≡ true
    → is_identity room' hash' p ≡ (room' == room && text_beq hash' hash)
is_identity_other room room' hash hash' p h = ground (
  arith,
  text_beq_iff p.token_hash hash,
  text_beq_iff p.token_hash hash',
  text_beq_iff hash' hash,
)

rename_rows-first_name :
    (room room' : ℕ) (hash hash' : Text) (name : Option Text) (d : Dict ℕ Participant)
    → first_name room' hash' (values (rename_rows room hash name d)) ≡ (
        if room' == room && text_beq hash' hash
        then if any (is_identity room hash) (values d) then name else none
        else first_name room' hash' (values d))
unfolding rename_rows first_name
rename_rows-first_name room room' hash hash' name [] = ground arith
rename_rows-first_name room room' hash hash' name ((k, p) ∷ d) = ground (
  arith,
  rename_rows-first_name room room' hash hash' name d,
  text_beq_iff p.token_hash hash,
  text_beq_iff p.token_hash hash',
  text_beq_iff hash' hash,
)

-- After a rename, a Room Token that has Participants in the Room has the new name (or none, when
-- the name was reset), and every other Room Token, and this one in other Rooms, has the name it
-- had.
pub find_display_name-set_display_name :
    (room room' : ℕ) (hash hash' : Text) (name : Option Text) (r : ParticipantRepository)
    → find_display_name room' hash' (set_display_name room hash name r) ≡ (
        if room' == room && text_beq hash' hash
        then if any (is_identity room hash) (values r.stored) then name else none
        else find_display_name room' hash' r)
unfolding find_display_name set_display_name
find_display_name-set_display_name room room' hash hash' name r =
    rename_rows-first_name room room' hash hash' name r.stored
