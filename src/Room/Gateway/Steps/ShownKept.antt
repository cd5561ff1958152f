-- ===== src/Room/Gateway/Steps/ShownKept.antt =====
-- The roster that clients see, under each operation of apps/api/src/room/room.gateway.ts.
use synxor.Common.{
  ℕ, ◌≡◌, refl, sym, ap, ◌∙◌, Bool, ◌&&◌, ◌||◌, ◌==◌, Option, none, some, List, [], ◌∷◌, ◌++◌, any,
  Text, text_beq, values, lookup, insert, nat_eq, IsKeyed, any-insert_fresh, any-insert_same,
  any-erase, option-split, arith,
}
use synxor.Participant.Entity.{ParticipantRole}
use synxor.Participant.Identity.{derive_identity}
use synxor.Room.Gateway.{
  ConnectedParticipant, Gateway, is_present, shows, announce_join, announce_leave,
  on_participant_left, find_leaving, remove_leaving,
}
use synxor.Room.Gateway.Kept.{books-announce_join, books-announce_leave}
use synxor.Room.Gateway.Roster.{roster_for-any}
use synxor.Room.Gateway.Steps.{last_roster}
use synxor.Room.Gateway.Steps.Shown.{
  gone, IsShown, announce_join-last_roster, announce_leave-last_roster,
}
use synxor.Room.Presence.{JoinResult}

-- The identity of a connection is that of its Room Token, whatever its name.
abbrev pub IsNamed : ConnectedParticipant → Type 0
IsNamed e = e.identity.key ≡ (derive_identity e.token_hash none).key

pub any-remove_leaving :
    (q : ConnectedParticipant → Bool) (pid : ℕ) (e : ConnectedParticipant)
    (l : List ConnectedParticipant)
    → find_leaving pid l ≡ some e
    → any q l ≡ (any q (remove_leaving pid l) || q e)
unfolding find_leaving remove_leaving
any-remove_leaving q pid e [] h = cc
any-remove_leaving q pid e (x ∷ l) h = ground (arith, any-remove_leaving q pid e l)

any-append :
    (q : ConnectedParticipant → Bool) (a b : List ConnectedParticipant)
    → any q (a ++ b) ≡ (any q a || any q b)
any-append q [] b = ground arith
any-append q (x ∷ a) b = ground (arith, any-append q a b)

pub any-gone :
    (q : ConnectedParticipant → Bool) (a b c : List ConnectedParticipant)
    → any q (a ++ (b ++ c)) ≡ (any q a || any q b || any q c)
any-gone q a b c = ground (arith, any-append q a (b ++ c), any-append q b c)

-- A connection that goes is still shown, and its leave waits.
pub on_participant_left-IsShown :
    (sid : ℕ) (g : Gateway) → IsKeyed g.connected → IsShown g → IsShown (on_participant_left sid g)
unfolding on_participant_left is_present
on_participant_left-IsShown sid g keyed s =
    option-split IsShown (lookup sid g.connected) (λ _. s)
      (λ info h. λ room key.
        ground (arith, s room key, any-erase (shows room key) sid info g.connected keyed h))

pub announce_join-IsShown :
    (sid room : ℕ) (role : ParticipantRole) (b : Bool) (result : JoinResult)
    (e : ConnectedParticipant) (g : Gateway)
    → lookup sid g.connected ≡ none
    → e.room_id ≡ room
    → IsShown g
    → IsShown
        (announce_join sid room role b result (record g { connected = insert sid e g.connected }))
unfolding is_present
announce_join-IsShown sid room role b result e g free own s room' key =
    let g₁ = record g { connected = insert sid e g.connected } in
    ground (
      arith,
      s room' key,
      own,
      any-insert_fresh (shows room' key) sid e g.connected free,
      ap (λ x. any (shows room' key) (values x.1)) (books-announce_join sid room role b result g₁),
      ap (λ x. any (shows room' key) (x.2 ++ (x.7 ++ x.8)))
          (books-announce_join sid room role b result g₁),
      announce_join-last_roster sid room room' role b result g₁,
      roster_for-any room key g₁,
    )

pub announce_leave-IsShown :
    (pid n : ℕ) (info : ConnectedParticipant) (g : Gateway)
    → find_leaving pid g.parting ≡ some info
    → IsShown g
    → IsShown (announce_leave info n (record g { parting = remove_leaving pid g.parting }))
unfolding is_present
announce_leave-IsShown pid n info g found s room key =
    let g₁ = record g { parting = remove_leaving pid g.parting } in
    ground (
      arith,
      s room key,
      any-remove_leaving (shows room key) pid info g.parting found,
      any-gone (shows room key) g.leaving g.parting g.unseen,
      any-gone (shows room key) g.leaving (remove_leaving pid g.parting) g.unseen,
      ap (λ x. any (shows room key) (values x.1)) (books-announce_leave info n g₁),
      ap (λ x. any (shows room key) (x.2 ++ (x.7 ++ x.8))) (books-announce_leave info n g₁),
      announce_leave-last_roster info n room g₁,
      roster_for-any room key g₁,
    )

-- What `IsShown` is about, of two states.
pub record IsSameView (g h : Gateway) : Type 0 where
  pub same_connected : g.connected ≡ h.connected
  pub same_entering : g.entering ≡ h.entering
  pub same_gone : (q : ConnectedParticipant → Bool) → any q (gone g) ≡ any q (gone h)
  pub same_roster : (room : ℕ) → last_roster room [] g.emitted ≡ last_roster room [] h.emitted

pub IsShown-same : (g h : Gateway) → IsSameView g h → IsShown g → IsShown h
unfolding is_present
IsShown-same g h v s room key = ground (
  arith,
  s room key,
  ap (λ x. any (shows room key) (values x)) v.same_connected,
  v.same_gone (shows room key),
  v.same_roster room,
)

pub derive_identity-key :
    (hash : Text) (a b : Option Text) → (derive_identity hash a).key ≡ (derive_identity hash b).key
unfolding derive_identity
derive_identity-key hash a b = refl

-- A name that changes.
pub update-IsShown :
    (sid : ℕ) (info : ConnectedParticipant) (name : Option Text) (g : Gateway)
    → lookup sid g.connected ≡ some info
    → IsNamed info
    → IsShown g
    → IsShown (record g {
      connected =
          insert sid (record info { identity = derive_identity info.token_hash name }) g.connected;
    })
unfolding is_present
update-IsShown sid info name g found named s room key =
    let e = record info { identity = derive_identity info.token_hash name } in
    let same : e.identity.key ≡ info.identity.key =
      derive_identity-key info.token_hash name none ∙ sym named in
    ground (
      arith,
      s room key,
      any-insert_same (shows room key) sid e info g.connected found
          (ap (λ k. e.room_id == room && text_beq k key) same),
    )
