-- ===== src/Room/Gateway.antt =====
-- apps/api/src/room/room.gateway.ts: the live side of the Rooms. This file has the state, the
-- roster, and what happens when a socket opens, joins, drops and leaves; `Handlers` has the messages
-- that a Participant sends. A call that waits for the database is cut there: `joining` and `leaving`
-- are the calls that wait, and each is taken up again by a step of its own, in any order.
pub mod Handlers
pub mod Roster
pub mod Steps
pub mod Rows
pub mod Sockets
pub mod Kept
pub mod Waits
use synxor.Common.{
  ℕ, Bool, true, false, ◌&&◌, ◌||◌, not, ◌==◌, if◌then◌else◌, Option, none, some, List, [], ◌∷◌,
  ◌++◌, any, filter, Text, text_beq, text_eq, nat_eq, Dict, values, lookup, insert, erase,
}
use synxor.Participant.Entity.{ParticipantRole, sender, receiver, CreateParticipantInput}
use synxor.Participant.Identity.{ParticipantIdentity, derive_identity}
use synxor.Participant.Repository.{ParticipantRepository, role_beq, create, set_disconnected}
use synxor.Room.Events.{
  Event, Emission, Audience, everyone, socket, joined, left, roster, identity_self,
}
use synxor.Room.Presence.{JoinResult}
use synxor.Room.World.{World}
use synxor.Transfer.Http.{TokenClaims, to_participant_role}

pub record ConnectedParticipant : Type 0 where
  pub participant_id : ℕ
  pub room_id : ℕ
  pub role : ParticipantRole
  pub token_hash : Text
  pub identity : ParticipantIdentity

-- A call of `onParticipantJoined` that waits: what it was called with.
pub record Joining : Type 0 where
  pub claims : TokenClaims
  pub token_hash : Text

-- `sockets` says of each socket that ever opened whether it is still there. What waits: `joining` has
-- the sockets whose join is under way, `entering` the rows of those whose Participant has been
-- written, `leaving` the connections that went, and `parting` those whose row has been disconnected.
-- The last two are not in the source: `stranded` are the Participants that a failed call left
-- connected in the database, and `unseen` the departures that a failed call kept from the Room.
pub record Gateway : Type 0 where
  pub world : World
  pub open world use *
  pub connected : Dict ℕ ConnectedParticipant
  pub sockets : Dict ℕ Bool
  pub joining : Dict ℕ Joining
  pub entering : Dict ℕ ConnectedParticipant
  pub leaving : List ConnectedParticipant
  pub parting : List ConnectedParticipant
  pub stranded : List ConnectedParticipant
  pub unseen : List ConnectedParticipant

unfoldable pub emit : Audience → Event → Gateway → Gateway
emit to event g = record g {
  world = record (g.world) {
    api = record (g.world.api) { emitted = g.emitted ++ record { to = to; event = event } ∷ [] };
  };
}

abbrev pub with_participants : ParticipantRepository → Gateway → Gateway
with_participants r g = record g {
  world = record (g.world) { api = record (g.world.api) { participants = r } };
}

-- Whether a connection is one of the Room's under this key.
abbrev pub shows : ℕ → Text → ConnectedParticipant → Bool
shows room key info = info.room_id == room && text_beq info.identity.key key

unfoldable pub is_present : ℕ → Text → Gateway → Bool
is_present room key g = any (shows room key) (values g.connected)

-- The loop of `rosterFor`.
unfoldable pub by_key :
    ℕ → List ConnectedParticipant → Dict Text ParticipantIdentity → Dict Text ParticipantIdentity
by_key room [] d = d
by_key room (info ∷ infos) d =
    by_key room infos (if info.room_id == room then insert info.identity.key info.identity d else d)

unfoldable pub roster_for : ℕ → Gateway → List ParticipantIdentity
unfolding by_key
roster_for room g = values (by_key room (values g.connected) [])

-- `onParticipantLeft` up to its wait.
unfoldable pub on_participant_left : ℕ → Gateway → Gateway
on_participant_left sid g = elim (lookup sid g.connected) [
  | none ↦ g
  | some info ↦ record g { connected = erase sid g.connected; leaving = info ∷ g.leaving }
]

-- The socket goes: the server disconnects it, or the connection is lost. Its `disconnecting`
-- listener runs.
unfoldable pub drop_socket : ℕ → Gateway → Gateway
unfolding on_participant_left
drop_socket sid g = on_participant_left sid (record g { sockets = insert sid false g.sockets })

unfoldable pub authenticate :
    (Text → Option TokenClaims) → Option Text → Option (Text × TokenClaims)
authenticate verify none = none
authenticate verify (some []) = none
authenticate verify (some (c ∷ cs)) = elim (verify (c ∷ cs)) [
  | none ↦ none
  | some claims ↦ some (c ∷ cs, claims)
]

-- `handleConnection`, up to the wait of `onParticipantJoined`.
unfoldable pub handle_connection :
    (Text → Option TokenClaims) → (Text → Text) → ℕ → Option Text → Gateway → Gateway
unfolding authenticate
handle_connection verify hash sid token g = elim (authenticate verify token) [
  | none ↦ record g { sockets = insert sid false g.sockets }
  | some (raw, claims) ↦ record g {
    sockets = insert sid true g.sockets;
    joining = insert sid (record { claims = claims; token_hash = hash raw }) g.joining;
  }
]

-- What the Participant is created with; the name is what `findDisplayName` answered.
abbrev pub join_input : Joining → Option Text → CreateParticipantInput
join_input j display_name = record {
  room_id = j.claims.room_id;
  role = to_participant_role j.claims.role;
  token_hash = j.token_hash;
  display_name = display_name;
}

-- The entry of the map for a Participant with this id.
abbrev pub entry : Joining → Option Text → ℕ → ConnectedParticipant
entry j display_name participant_id = record {
  participant_id = participant_id;
  room_id = j.claims.room_id;
  role = to_participant_role j.claims.role;
  token_hash = j.token_hash;
  identity = derive_identity j.token_hash display_name;
}

abbrev pub is_live : ℕ → Gateway → Bool
is_live sid g = elim (lookup sid g.sockets) [ none ↦ false | some live ↦ live ]

-- What is broadcast when someone has joined: who they are, the count, and the roster.
unfoldable pub announce_join : ℕ → ℕ → ParticipantRole → Bool → JoinResult → Gateway → Gateway
unfolding emit roster_for
announce_join sid room role first_connection result g =
    let g₁ = emit (socket sid) (identity_self result.identity) g in
    let g₂ =
      if role_beq role receiver
      then emit (everyone room) (joined result.receiver_count) g₁
      else g₁ in
    emit (everyone room)
      (roster (record {
        roster = roster_for room g₂;
        joined = if first_connection then some result.identity else none;
        left = none;
      }))
      g₂

-- `recordJoin` up to the row: the name was read before, and then the row is written, or a call
-- failed and the socket is dropped.
unfoldable pub write_join : Bool → Option Text → ℕ → ℕ → Gateway → Gateway
unfolding drop_socket
write_join fails display_name now sid g = elim (lookup sid g.joining) [
  | none ↦ g
  | some j ↦ elim (lookup sid g.entering) [
    | some written ↦ g
    | none ↦
        let (p, r) = create now (join_input j display_name) g.participants in
        if fails
        then drop_socket sid (record g { joining = erase sid g.joining })
        else record (with_participants r g) {
          entering = insert sid (entry j display_name p.id) g.entering;
        }
  ]
]

-- The rest of `onParticipantJoined` once the Participant is recorded. A socket that dropped during
-- the waits leaves at once.
unfoldable pub on_recorded : ℕ → ConnectedParticipant → ℕ → Gateway → Gateway
unfolding announce_join on_participant_left is_present
on_recorded sid info receiver_count g =
    let first_connection = not (is_present info.room_id info.identity.key g) in
    let g₁ = record g { connected = insert sid info g.connected } in
    let g₂ =
      announce_join sid info.room_id info.role first_connection
        (record {
          participant_id = info.participant_id;
          receiver_count = receiver_count;
          identity = info.identity;
        })
        g₁ in
    if is_live sid g then g₂ else on_participant_left sid g₂

-- The waits after the row end: Receivers were counted and the socket has joined, or that failed.
unfoldable pub finish_join : Bool → ℕ → ℕ → Gateway → Gateway
unfolding drop_socket on_recorded
finish_join fails receiver_count sid g = elim (lookup sid g.joining) [
  | none ↦ g
  | some j ↦ elim (lookup sid g.entering) [
    | none ↦ g
    | some info ↦
        let g₁ = record g { joining = erase sid g.joining; entering = erase sid g.entering } in
        if fails
        then drop_socket sid (record g₁ { stranded = info ∷ g.stranded })
        else on_recorded sid info receiver_count g₁
  ]
]

abbrev pub is_of : ℕ → ConnectedParticipant → Bool
is_of participant_id info = info.participant_id == participant_id

-- The calls that wait, without the one of this Participant.
unfoldable pub remove_leaving : ℕ → List ConnectedParticipant → List ConnectedParticipant
remove_leaving participant_id [] = []
remove_leaving participant_id (info ∷ infos) =
    let rest = remove_leaving participant_id infos in
    if is_of participant_id info then infos else info ∷ rest

unfoldable pub find_leaving : ℕ → List ConnectedParticipant → Option ConnectedParticipant
find_leaving participant_id [] = none
find_leaving participant_id (info ∷ infos) =
    let rest = find_leaving participant_id infos in
    if is_of participant_id info then some info else rest

-- What is broadcast when someone has left: the count, and the roster.
unfoldable pub announce_leave : ConnectedParticipant → ℕ → Gateway → Gateway
unfolding emit roster_for is_present
announce_leave info receiver_count g =
    let g₁ =
      if role_beq info.role receiver
      then emit (everyone info.room_id) (left receiver_count) g
      else g in
    emit (everyone info.room_id)
      (roster (record {
        roster = roster_for info.room_id g₁;
        joined = none;
        left = if is_present info.room_id info.identity.key g₁ then none else some info.identity;
      }))
      g₁

-- `setDisconnected` ends: the row is disconnected, or that failed.
unfoldable pub write_leave : Bool → ℕ → ℕ → Gateway → Gateway
unfolding set_disconnected
write_leave fails now participant_id g = elim (find_leaving participant_id g.leaving) [
  | none ↦ g
  | some info ↦
      let g₁ = record g { leaving = remove_leaving participant_id g.leaving } in
      elim (set_disconnected participant_id now g.participants) [
        | none ↦ record g₁ { unseen = info ∷ g.unseen }
        | some (p, r) ↦
            if fails
            then record g₁ { stranded = info ∷ g.stranded; unseen = info ∷ g.unseen }
            else record (with_participants r g₁) { parting = info ∷ g.parting }
      ]
]

-- The count of the Receivers that are left is there, or that failed and nothing is broadcast.
unfoldable pub finish_leave : Bool → ℕ → ℕ → Gateway → Gateway
unfolding announce_leave
finish_leave fails receiver_count participant_id g = elim (find_leaving participant_id g.parting) [
  | none ↦ g
  | some info ↦
      let g₁ = record g { parting = remove_leaving participant_id g.parting } in
      if fails
      then record g₁ { unseen = info ∷ g.unseen }
      else announce_leave info receiver_count g₁
]
