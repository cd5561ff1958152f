-- ===== src/Participant/Repository.antt =====
-- The participant repository as apps/api/src/domain/participant/participant.repository.fake.ts
-- implements the port of participant.repository.ts. The time is an argument.
pub mod Names
pub mod Connections
use synxor.Common.{
  ℕ, ◌+◌, Bool, true, false, ◌&&◌, leb, ◌==◌, if◌then◌else◌, Option, none, some, List, [], ◌∷◌,
  length, filter, has, Text, text_beq, Dict, values, lookup, insert, sort, nat_eq,
}
use synxor.Participant.Entity.{
  ParticipantRole, sender, receiver, Participant, CreateParticipantInput,
}

pub record ParticipantRepository : Type 0 where
  pub stored : Dict ℕ Participant
  pub next_id : ℕ

abbrev pub role_beq : ParticipantRole → ParticipantRole → Bool
role_beq sender sender = true
role_beq sender receiver = false
role_beq receiver sender = false
role_beq receiver receiver = true

abbrev pub participant_of : ℕ → ℕ → CreateParticipantInput → Participant
participant_of now id input = record {
  id = id;
  room_id = input.room_id;
  role = input.role;
  token_hash = input.token_hash;
  display_name = input.display_name;
  joined_at = now;
  disconnected_at = none;
}

unfoldable pub create :
    ℕ → CreateParticipantInput → ParticipantRepository → Participant × ParticipantRepository
create now input r =
    let p = participant_of now r.next_id input in
    (p, record r { stored = insert p.id p r.stored; next_id = r.next_id + 1 })

-- `p.roomId === roomId && p.tokenHash === tokenHash`
abbrev pub is_identity : ℕ → Text → Participant → Bool
is_identity room hash p = p.room_id == room && text_beq p.token_hash hash

pub first_name : ℕ → Text → List Participant → Option Text
first_name room hash [] = none
first_name room hash (p ∷ ps) =
    let rest = first_name room hash ps in
    if is_identity room hash p
    then elim (p.display_name) [ none ↦ rest | some name ↦ some name ]
    else rest

unfoldable pub find_display_name : ℕ → Text → ParticipantRepository → Option Text
unfolding first_name
find_display_name room hash r = first_name room hash (values r.stored)

unfoldable pub rename_rows : ℕ → Text → Option Text → Dict ℕ Participant → Dict ℕ Participant
rename_rows room hash name [] = []
rename_rows room hash name ((k, p) ∷ d) =
    (k, if is_identity room hash p then record p { display_name = name } else p)
    ∷ rename_rows room hash name d

unfoldable pub set_display_name :
    ℕ → Text → Option Text → ParticipantRepository → ParticipantRepository
unfolding rename_rows
set_display_name room hash name r = record r { stored = rename_rows room hash name r.stored }

unfoldable pub find_by_room_id : ℕ → ParticipantRepository → List Participant
find_by_room_id room r = filter (λ p. p.room_id == room) (values r.stored)

unfoldable pub find_by_ids : List ℕ → ParticipantRepository → List Participant
find_by_ids ids r = filter (λ p. has p.id ids) (values r.stored)

-- `rows[0] ?? null`
abbrev first {ℓ} : {A : Type ℓ} → List A → Option A
first [] = none
first (x ∷ xs) = some x

-- The rows sorted by the time of joining, the latest first.
unfoldable pub find_by_room_and_token_hash : ℕ → Text → ParticipantRepository → Option Participant
unfolding sort
find_by_room_and_token_hash room hash r =
    first
      (sort (λ a b. leb b.joined_at a.joined_at) (filter (is_identity room hash) (values r.stored)))

-- `none` is the rejection for an id that is not stored.
unfoldable pub set_disconnected :
    ℕ → ℕ → ParticipantRepository → Option (Participant × ParticipantRepository)
set_disconnected id at r = elim (lookup id r.stored) [
  | none ↦ none
  | some p ↦
      let updated = record p { disconnected_at = some at } in
      some (updated, record r { stored = insert id updated r.stored })
]

abbrev pub is_connected : Participant → Bool
is_connected p = elim (p.disconnected_at) [ none ↦ true | some at ↦ false ]

abbrev pub role_fits : Option ParticipantRole → Participant → Bool
role_fits none p = true
role_fits (some role) p = role_beq p.role role

unfoldable pub count_connected : ℕ → Option ParticipantRole → ParticipantRepository → ℕ
count_connected room role r =
    length (filter (λ p. p.room_id == room && is_connected p && role_fits role p) (values r.stored))

-- The loop of `markAllDisconnected`: the rows, and how many of them were connected.
unfoldable pub disconnect_rows : ℕ → Dict ℕ Participant → Dict ℕ Participant × ℕ
disconnect_rows at [] = ([], 0)
disconnect_rows at ((k, p) ∷ d) =
    let (rest, count) = disconnect_rows at d in
    if is_connected p
    then ((k, record p { disconnected_at = some at }) ∷ rest, count + 1)
    else ((k, p) ∷ rest, count)

unfoldable pub mark_all_disconnected : ℕ → ParticipantRepository → ℕ × ParticipantRepository
unfolding disconnect_rows
mark_all_disconnected at r =
    let (rows, count) = disconnect_rows at r.stored in (count, record r { stored = rows })
