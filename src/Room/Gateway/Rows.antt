-- ===== src/Room/Gateway/Rows.antt =====
-- The rows of Participants against the connections of apps/api/src/room/room.gateway.ts and the
-- leaves that wait.
pub mod Booked
pub mod Moved
use synxor.Common.{
  ℕ, ◌+◌, ◌≤◌, ◌<◌, ◌≡◌, refl, sym, subst, Bool, ◌&&◌, ◌==◌, if◌then◌else◌, Option, none, some, inl,
  inr, List, [], ◌∷◌, ◌++◌, All, Text, Dict, values, lookup, insert, erase, lookup-insert, IsKeyed,
  insert-IsKeyed, erase-IsKeyed, nat_eq, count, if-both, Bool-cases, count-insert_fresh,
  count-insert_over, count-erase, All-insert, All-erase, All-lookup, All-mono, arith,
}
use synxor.Participant.Entity.{ParticipantRole, Participant, CreateParticipantInput}
use synxor.Participant.Repository.{
  ParticipantRepository, participant_of, create, role_beq, role_fits, is_connected, is_identity,
  count_connected, set_disconnected, rename_rows, set_display_name,
}
use synxor.Room.Gateway.{ConnectedParticipant, is_of, find_leaving, remove_leaving}
use synxor.Room.Gateway.Handlers.{set_identity}
use synxor.Room.Presence.Renames.{Fits}
use synxor.Participant.Identity.{ParticipantIdentity}

-- How many connections hold this Participant: entries of the map, and leaves that wait.
unfoldable pub holders : ℕ → Dict ℕ ConnectedParticipant → List ConnectedParticipant → ℕ
holders pid c l = count (is_of pid) (values c) + count (is_of pid) l

-- Whether the row of this Participant is there and connected.
unfoldable pub connected_row : ℕ → ParticipantRepository → ℕ
connected_row pid r = elim (lookup pid r.stored) [
  | none ↦ 0
  | some p ↦ if is_connected p then 1 else 0
]

abbrev pub is_at : ℕ → ParticipantRole → ConnectedParticipant → Bool
is_at room role e = e.room_id == room && role_beq e.role role

-- The entry's Participant has a row with its Room and its role.
pub record Agrees (r : ParticipantRepository) (e : ConnectedParticipant) : Type 0 where
  pub row : Participant
  pub found : lookup e.participant_id r.stored ≡ some row
  pub same_room : row.room_id ≡ e.room_id
  pub same_role : row.role ≡ e.role

pub record IsBooked (r : ParticipantRepository) (c : Dict ℕ ConnectedParticipant)
    (l : List ConnectedParticipant) : Type 0 where
  pub fits : Fits r.next_id r.stored
  pub rows_keyed : IsKeyed r.stored
  pub entries_keyed : IsKeyed c
  pub synced : (pid : ℕ) → holders pid c l ≡ connected_row pid r
  pub agreed : All (Agrees r) (values c)
  pub agreed_leaving : All (Agrees r) l
  pub counted :
      (room : ℕ) (role : ParticipantRole)
      → count_connected room (some role) r
        ≡ count (is_at room role) (values c) + count (is_at room role) l

pub lookup-Fits : (n k : ℕ) (d : Dict ℕ Participant) → Fits n d → n ≤ k → lookup k d ≡ none
lookup-Fits n k [] h le = refl
lookup-Fits n k ((j, p) ∷ d) h le = ground (arith, lookup-Fits n k d h.2 le)

pub Fits-insert :
    (n : ℕ) (p : Participant) (d : Dict ℕ Participant)
    → Fits n d
    → p.id ≡ n
    → Fits (n + 1) (insert p.id p d)
Fits-insert n p [] h e = (refl, omega arith, tt)
Fits-insert n p ((j, x) ∷ d) h e = ground (arith, Fits-insert n p d h.2 e)

-- A row that is replaced by one with its id.
pub Fits-update :
    (n k : ℕ) (p : Participant) (d : Dict ℕ Participant)
    → Fits n d
    → p.id ≡ k
    → k < n
    → Fits n (insert k p d)
Fits-update n k p [] h e lt = ground arith
Fits-update n k p ((j, x) ∷ d) h e lt = ground (arith, Fits-update n k p d h.2 e lt)

pub id-lookup :
    (n k : ℕ) (p : Participant) (d : Dict ℕ Participant)
    → Fits n d
    → lookup k d ≡ some p
    → (p.id ≡ k) × (k < n)
id-lookup n k p [] h e = cc
id-lookup n k p ((j, x) ∷ d) h e = ground (arith, id-lookup n k p d h.2)

abbrev pub row_at : ℕ → ParticipantRole → Participant → Bool
row_at room role p = p.room_id == room && is_connected p && role_fits (some role) p

pub count-remove_leaving :
    (q : ConnectedParticipant → Bool) (pid : ℕ) (e : ConnectedParticipant)
    (l : List ConnectedParticipant)
    → find_leaving pid l ≡ some e
    → count q l ≡ count q (remove_leaving pid l) + (if q e then 1 else 0)
unfolding find_leaving remove_leaving
count-remove_leaving q pid e [] h = cc
count-remove_leaving q pid e (x ∷ l) h = ground (arith, count-remove_leaving q pid e l)

pub find_leaving-is_of :
    (pid : ℕ) (e : ConnectedParticipant) (l : List ConnectedParticipant)
    → find_leaving pid l ≡ some e
    → e.participant_id ≡ pid
unfolding find_leaving
find_leaving-is_of pid e [] h = cc
find_leaving-is_of pid e (x ∷ l) h = ground (arith, find_leaving-is_of pid e l)

pub All-find_leaving :
    (P : ConnectedParticipant → Type 0) (pid : ℕ) (e : ConnectedParticipant)
    (l : List ConnectedParticipant)
    → find_leaving pid l ≡ some e
    → All P l
    → P e
unfolding find_leaving
All-find_leaving P pid e [] h a = absurd cc
All-find_leaving P pid e (x ∷ l) h a = elim (Bool-cases (is_of pid x)) [
  | inl t ↦ subst P (ground (arith, h, t)) a.0
  | inr f ↦ All-find_leaving P pid e l (ground (arith, h, f)) a.1
]

pub All-remove_leaving :
    (P : ConnectedParticipant → Type 0) (pid : ℕ) (l : List ConnectedParticipant)
    → All P l
    → All P (remove_leaving pid l)
unfolding remove_leaving
All-remove_leaving P pid [] a = tt
All-remove_leaving P pid (x ∷ l) a =
    let rest = All-remove_leaving P pid l a.1 in
    if-both (λ l'. All P l') (is_of pid x) a.1 (a.0, rest)

pub find_leaving-append :
    (pid : ℕ) (e : ConnectedParticipant) (l x : List ConnectedParticipant)
    → find_leaving pid l ≡ some e
    → (find_leaving pid (l ++ x) ≡ some e)
      × (remove_leaving pid (l ++ x) ≡ remove_leaving pid l ++ x)
unfolding find_leaving remove_leaving
find_leaving-append pid e [] x h = absurd cc
find_leaving-append pid e (y ∷ l) x h = ground (arith, find_leaving-append pid e l x)
