-- ===== src/Room/Presence.antt =====
-- apps/api/src/room/room-presence.service.ts: the Participants that join and leave a Room, their
-- names, and the count of Receivers. The time is an argument.
pub mod Renames
use synxor.Common.{ℕ, Bool, Option, none, some, Text}
use synxor.Participant.Entity.{ParticipantRole, receiver, Participant}
use synxor.Participant.Identity.{ParticipantIdentity, sanitize_display_name, derive_identity}
use synxor.Participant.Repository.{
  ParticipantRepository, create, find_display_name, set_display_name, set_disconnected,
  count_connected, mark_all_disconnected,
}

pub record RecordJoinInput : Type 0 where
  pub room_id : ℕ
  pub role : ParticipantRole
  pub token_hash : Text

pub record JoinResult : Type 0 where
  pub participant_id : ℕ
  pub receiver_count : ℕ
  pub identity : ParticipantIdentity

unfoldable pub on_application_bootstrap : ℕ → ParticipantRepository → ParticipantRepository
on_application_bootstrap now r = (mark_all_disconnected now r).1

unfoldable pub record_join :
    ℕ → RecordJoinInput → ParticipantRepository → JoinResult × ParticipantRepository
record_join now input r =
    let display_name = find_display_name input.room_id input.token_hash r in
    let (participant, r') =
      create now
        (record {
          room_id = input.room_id;
          role = input.role;
          token_hash = input.token_hash;
          display_name = display_name;
        })
        r in
    (
      record {
        participant_id = participant.id;
        receiver_count = count_connected input.room_id (some receiver) r';
        identity = derive_identity input.token_hash display_name;
      },
      r',
    )

unfoldable pub rename :
    ℕ → Text → Option Text → ParticipantRepository → ParticipantIdentity × ParticipantRepository
rename room_id token_hash name r =
    let display_name = sanitize_display_name name in
    (derive_identity token_hash display_name, set_display_name room_id token_hash display_name r)

-- The count of Receivers that are left; `none` is the rejection for an unknown Participant.
unfoldable pub record_leave : ℕ → ℕ → ℕ → ParticipantRepository → Option (ℕ × ParticipantRepository)
record_leave now participant_id room_id r = elim (set_disconnected participant_id now r) [
  | none ↦ none
  | some (p, r') ↦ some (count_connected room_id (some receiver) r', r')
]
