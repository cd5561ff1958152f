-- ===== src/Tests/People.antt =====
-- Participants and their names.
use synxor.Common.{nat_eq, ℕ, ◌≡◌, refl, none, some, [], ◌∷◌, Text, codes}
use synxor.Participant.Entity.{sender, receiver, Participant}
use synxor.Participant.Repository.{ParticipantRepository}
use synxor.Participant.Identity.{derive_identity}
use synxor.Room.Presence.{RecordJoinInput, record_join, rename}
use synxor.Room.Presence.Renames.{rename-record_join}

abbrev participant : ℕ → Text → Participant
participant id hash = record {
  id = id;
  room_id = 7;
  role = sender;
  token_hash = hash;
  display_name = none;
  joined_at = id;
  disconnected_at = none;
}

abbrev people : ParticipantRepository
people = record {
  stored = (1, participant 1 (codes "abc")) ∷ (2, participant 2 (codes "def")) ∷ [];
  next_id = 3;
}

-- The colour and the noun that the source derives for this hash.
derived-name : (derive_identity (codes "abc") none).name ≡ codes "Magenta Sable"
unfolding derive_identity
derived-name = refl

-- The first Participant's next connection, as a Receiver.
abbrev again : RecordJoinInput
again = record { room_id = 7; role = receiver; token_hash = codes "abc" }

rename-record_join_example :
    let (identity, r') = rename 7 (codes "abc") (some (codes "Ann")) people in
    (record_join 50 again r').0.identity ≡ identity
rename-record_join_example = rename-record_join 50 again (some (codes "Ann")) people refl
