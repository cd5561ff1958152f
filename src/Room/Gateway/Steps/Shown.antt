-- ===== src/Room/Gateway/Steps/Shown.antt =====
-- The roster that the clients of apps/api/src/room/room.gateway.ts see, over time.
use synxor.Common.{
  ℕ, ◌≡◌, refl, ap, ◌∙◌, Bool, true, not, ◌&&◌, ◌||◌, ◌==◌, if◌then◌else◌, List, [], ◌∷◌, ◌++◌, any,
  Text, nat_eq, arith,
}
use synxor.Participant.Entity.{ParticipantRole, receiver}
use synxor.Participant.Identity.{ParticipantIdentity}
use synxor.Room.Events.{Event, everyone, socket, joined, left, identity_self, Audience, Emission}
use synxor.Participant.Repository.{role_beq}
use synxor.Room.Gateway.{
  ConnectedParticipant, Gateway, emit, roster_for, is_present, shows, announce_join, announce_leave,
}
use synxor.Room.Gateway.Roster.{has_name}
use synxor.Room.Gateway.Steps.{roster_to, last_roster}
use synxor.Room.Presence.{JoinResult}

abbrev pub shown : ℕ → Text → List Emission → Bool
shown room key es = any (has_name key) (last_roster room [] es)

-- A key that is present is shown, and one that is shown is present or went, in a leave that
-- waits or failed.
abbrev pub shown_at : Bool → Bool → Bool → Bool
shown_at present listed waiting = (not present || listed) && (not listed || present || waiting)

-- Who went: leaves that wait, before and after the row is disconnected, and those that failed.
abbrev pub gone : Gateway → List ConnectedParticipant
gone g = g.leaving ++ (g.parting ++ g.unseen)

abbrev pub IsShown : Gateway → Type 0
IsShown g =
    (room : ℕ) (key : Text)
    → shown_at (is_present room key g) (shown room key g.emitted) (any (shows room key) (gone g))
      ≡ true

last_roster-append :
    (room : ℕ) (acc : List ParticipantIdentity) (es : List Emission) (e : Emission)
    → last_roster room acc (es ++ e ∷ []) ≡ roster_to room e.to e.event (last_roster room acc es)
unfolding last_roster
last_roster-append room acc [] e = refl
last_roster-append room acc (x ∷ es) e =
    last_roster-append room (roster_to room x.to x.event acc) es e

pub last_roster-emit :
    (room : ℕ) (to : Audience) (event : Event) (g : Gateway)
    → last_roster room [] (emit to event g).emitted
      ≡ roster_to room to event (last_roster room [] g.emitted)
unfolding emit
last_roster-emit room to event g =
    last_roster-append room [] g.emitted (record { to = to; event = event })

roster_for-emit :
    (room : ℕ) (to : Audience) (event : Event) (g : Gateway)
    → roster_for room (emit to event g) ≡ roster_for room g
unfolding emit roster_for
roster_for-emit room to event g = refl

-- What is shown after a broadcast of the roster that the connections have.
pub announce_join-last_roster :
    (sid room room' : ℕ) (role : ParticipantRole) (b : Bool) (result : JoinResult) (g : Gateway)
    → last_roster room' [] (announce_join sid room role b result g).emitted
      ≡ (if room == room' then roster_for room g else last_roster room' [] g.emitted)
unfolding announce_join
announce_join-last_roster sid room room' role b result g =
    let g₁ = emit (socket sid) (identity_self result.identity) g in
    let g₂ =
      if role_beq role receiver
      then emit (everyone room) (joined result.receiver_count) g₁
      else g₁ in
    let same : (roster_for room g₂ ≡ roster_for room g)
        × (last_roster room' [] g₂.emitted ≡ last_roster room' [] g.emitted) =
      ground (
        arith,
        roster_for-emit room (socket sid) (identity_self result.identity) g,
        roster_for-emit room (everyone room) (joined result.receiver_count) g₁,
        last_roster-emit room' (socket sid) (identity_self result.identity) g,
        last_roster-emit room' (everyone room) (joined result.receiver_count) g₁,
      ) in
    last_roster-emit room' (everyone room) _ g₂
    ∙ ap (λ (x : _ × _). if room == room' then x.0 else x.1) (ground (arith, same))

pub announce_leave-last_roster :
    (info : ConnectedParticipant) (n room' : ℕ) (g : Gateway)
    → last_roster room' [] (announce_leave info n g).emitted ≡ (
        if info.room_id == room' then roster_for info.room_id g else last_roster room' [] g.emitted)
unfolding announce_leave
announce_leave-last_roster info n room' g =
    let g₁ = if role_beq info.role receiver then emit (everyone info.room_id) (left n) g else g in
    let same : (roster_for info.room_id g₁ ≡ roster_for info.room_id g)
        × (last_roster room' [] g₁.emitted ≡ last_roster room' [] g.emitted) =
      ground (
        arith,
        roster_for-emit info.room_id (everyone info.room_id) (left n) g,
        last_roster-emit room' (everyone info.room_id) (left n) g,
      ) in
    last_roster-emit room' (everyone info.room_id) _ g₁
    ∙ ap (λ (x : _ × _). if info.room_id == room' then x.0 else x.1) (ground (arith, same))
