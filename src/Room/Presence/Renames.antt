-- ===== src/Room/Presence/Renames.antt =====
-- Names that stay, and counts that go up and down.
use synxor.Common.{
  ℕ, ◌+◌, ◌<◌, ◌≡◌, Bool, true, ◌&&◌, ◌==◌, if◌then◌else◌, Option, some, [], ◌∷◌, any, filter,
  length, Text, text_beq_iff, Dict, values, insert, nat_eq, arith,
}
use synxor.Participant.Entity.{receiver, Participant}
use synxor.Participant.Identity.{sanitize_display_name}
use synxor.Participant.Repository.{
  ParticipantRepository, is_identity, is_connected, role_fits, role_beq, participant_of, create,
  find_display_name, count_connected,
}
use synxor.Participant.Repository.Names.{find_display_name-set_display_name}
use synxor.Room.Presence.{RecordJoinInput, record_join, rename}

-- Whoever joins again after a rename has the identity that the rename announced, provided that the
-- Room Token had joined before.
pub rename-record_join :
    (now : ℕ) (input : RecordJoinInput) (name : Option Text) (r : ParticipantRepository)
    → any (is_identity input.room_id input.token_hash) (values r.stored) ≡ true
    → let (identity, r') = rename input.room_id input.token_hash name r in
      (record_join now input r').0.identity ≡ identity
unfolding rename record_join
rename-record_join now input name r h = ground (
  arith,
  h,
  text_beq_iff input.token_hash input.token_hash,
  find_display_name-set_display_name input.room_id input.room_id input.token_hash input.token_hash
      (sanitize_display_name name) r,
)

-- Participants whose ids were drawn from the counter, each under its own id.
abbrev pub Fits : ℕ → Dict ℕ Participant → Type 0
Fits n [] = Unit {0}
Fits n ((k, p) ∷ d) = (k ≡ p.id) × (k < n) × Fits n d

-- Whether a Participant counts as a connected Receiver of the Room.
abbrev counts : ℕ → Participant → Bool
counts room p = p.room_id == room && is_connected p && role_fits (some receiver) p

count-insert_fresh :
    (room : ℕ) (p : Participant) (d : Dict ℕ Participant)
    → Fits p.id d
    → length (filter (counts room) (values (insert p.id p d)))
      ≡ length (filter (counts room) (values d)) + (if counts room p then 1 else 0)
count-insert_fresh room p [] h = ground arith
count-insert_fresh room p ((k, x) ∷ d) h = ground (arith, count-insert_fresh room p d h.2)

-- Where ids are drawn from the counter, a Receiver that joins makes the count of Receivers of its
-- Room go up by one, and a Sender leaves it as it is.
pub record_join-count :
    (now : ℕ) (input : RecordJoinInput) (r : ParticipantRepository)
    → Fits r.next_id r.stored
    → (record_join now input r).0.receiver_count
      ≡ count_connected input.room_id (some receiver) r
        + (if role_beq input.role receiver then 1 else 0)
unfolding record_join create count_connected
record_join-count now input r h = ground (
  arith,
  count-insert_fresh input.room_id
      (participant_of now r.next_id (record {
        room_id = input.room_id;
        role = input.role;
        token_hash = input.token_hash;
        display_name = find_display_name input.room_id input.token_hash r;
      }))
      r.stored h,
)
