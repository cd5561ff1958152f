-- ===== src/Room/Gateway/Roster.antt =====
-- The roster of apps/api/src/room/room.gateway.ts: whom `rosterFor` lists.
use synxor.Common.{
  ℕ, ◌≡◌, refl, Bool, ◌||◌, leb, ◌==◌, if◌then◌else◌, none, List, [], ◌∷◌, any, Text, text_beq,
  text_beq_iff, text_eq, Dict, values, lookup, insert, lookup-insert, count, has_key, if-both,
  arith,
}
use synxor.Participant.Identity.{ParticipantIdentity}
use synxor.Room.Gateway.{ConnectedParticipant, Gateway, by_key, roster_for, is_present, shows}

-- Whether an identity has this key.
abbrev pub has_name : Text → ParticipantIdentity → Bool
has_name key i = text_beq i.key key

-- Each identity stands under its own key, and no key is listed twice.
abbrev IsByKey : Dict Text ParticipantIdentity → Type 0
IsByKey [] = Unit {0}
IsByKey ((k, i) ∷ d) = (i.key ≡ k) × (lookup k d ≡ none) × IsByKey d

insert-IsByKey :
    (i : ParticipantIdentity) (d : Dict Text ParticipantIdentity)
    → IsByKey d
    → IsByKey (insert i.key i d)
insert-IsByKey i [] h = (refl, refl, tt)
insert-IsByKey i ((k, x) ∷ d) h = ground (
  arith,
  insert-IsByKey i d h.2,
  lookup-insert i.key k i d,
  text_beq_iff i.key k,
  text_beq_iff k i.key,
)

IsByKey-count :
    (key : Text) (d : Dict Text ParticipantIdentity)
    → IsByKey d
    → count (has_name key) (values d) ≡ (if has_key key d then 1 else 0)
IsByKey-count key [] h = refl
IsByKey-count key ((k, i) ∷ d) h =
    ground (arith, IsByKey-count key d h.2, text_beq_iff key k, text_beq_iff i.key key)

by_key-IsByKey :
    (room : ℕ) (infos : List ConnectedParticipant) (d : Dict Text ParticipantIdentity)
    → IsByKey d
    → IsByKey (by_key room infos d)
unfolding by_key
by_key-IsByKey room [] d h = h
by_key-IsByKey room (info ∷ infos) d h =
    by_key-IsByKey room infos _
      (if-both IsByKey (info.room_id == room) (insert-IsByKey info.identity d h) h)

has_key-by_key :
    (room : ℕ) (key : Text) (infos : List ConnectedParticipant) (d : Dict Text ParticipantIdentity)
    → has_key key (by_key room infos d) ≡ (has_key key d || any (shows room key) infos)
unfolding by_key
has_key-by_key room key [] d = ground arith
has_key-by_key room key (info ∷ infos) d = ground (
  arith,
  has_key-by_key room key infos
      (if info.room_id == room then insert info.identity.key info.identity d else d),
  lookup-insert info.identity.key key info.identity d,
  text_beq_iff key info.identity.key,
  text_beq_iff info.identity.key key,
)

-- `rosterFor` lists each identity of the Room's connections once, and no other: a person with two
-- tabs is listed once.
pub roster_for-count :
    (room : ℕ) (key : Text) (g : Gateway)
    → count (has_name key) (roster_for room g) ≡ (if is_present room key g then 1 else 0)
unfolding roster_for is_present
roster_for-count room key g = ground (
  arith,
  IsByKey-count key _ (by_key-IsByKey room (values g.connected) [] tt),
  has_key-by_key room key (values g.connected) [],
)

any-count {ℓ} : {A : Type ℓ} (p : A → Bool) (xs : List A) → any p xs ≡ leb 1 (count p xs)
any-count p [] = refl
any-count p (x ∷ xs) = ground (arith, any-count p xs)

pub roster_for-any :
    (room : ℕ) (key : Text) (g : Gateway)
    → any (has_name key) (roster_for room g) ≡ is_present room key g
roster_for-any room key g =
    ground (arith, any-count (has_name key) (roster_for room g), roster_for-count room key g)
