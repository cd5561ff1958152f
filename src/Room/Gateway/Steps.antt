-- ===== src/Room/Gateway/Steps.antt =====
-- The gateway of apps/api/src/room/room.gateway.ts as a system that moves: sockets open and drop, waits
-- end in any order, messages arrive, and the rest of the API works beside it.
pub mod Counted
pub mod Shown
pub mod ShownKept
pub mod Watched
pub mod Rosters
use synxor.Common.{
  ℕ, ◌≡◌, ◌≢◌, Bool, false, if◌then◌else◌, ◌==◌, Option, none, List, [], ◌∷◌, Text, lookup, nat_eq,
}
use synxor.Participant.Identity.{ParticipantIdentity}
use synxor.Room.Events.{Audience, everyone, Event, roster, Emission}
use synxor.Room.Gateway.{
  ConnectedParticipant, Gateway, handle_connection, drop_socket, write_join, finish_join,
  write_leave, finish_leave,
}
use synxor.Room.Gateway.Handlers.{
  Platform, handle_send_text, handle_rename, handle_typing, handle_close_room,
}
use synxor.Room.Presence.{on_application_bootstrap}
use synxor.Room.World.{World}
use synxor.Storage.Key.{ObjectKey}
use synxor.Transfer.Http.{TokenClaims}

-- The gateway when the process starts: no socket is there, and `onApplicationBootstrap` has run.
unfoldable pub start : ℕ → World → Gateway
unfolding on_application_bootstrap
start now w = record {
  world = record w {
    api = record (w.api) {
      participants = on_application_bootstrap now w.participants;
      emitted = [];
    };
  };
  connected = [];
  sockets = [];
  joining = [];
  entering = [];
  leaving = [];
  parting = [];
  stranded = [];
  unseen = [];
}

-- The roster that an emission shows to the Room, where `acc` is the one that it had.
abbrev pub roster_to : ℕ → Audience → Event → List ParticipantIdentity → List ParticipantIdentity
roster_to room (everyone r) (roster p) acc = if r == room then p.roster else acc
roster_to room to event acc = acc

-- The roster that the Room's clients have seen last.
unfoldable pub last_roster : ℕ → List ParticipantIdentity → List Emission → List ParticipantIdentity
last_roster room acc [] = acc
last_roster room acc (e ∷ es) = last_roster room (roster_to room e.to e.event acc) es

-- A socket's id is new when it opens. Each wait may end or fail; what a read of the database answered
-- (a name, a count) is any value, since other steps come between it and its use.
pub data Step : Gateway → Gateway → Type 0 where
  opens :
      (verify : Text → Option TokenClaims) (hash : Text → Text) (sid : ℕ) (token : Option Text)
      (g : Gateway)
      → lookup sid g.sockets ≡ none
      → Step g (handle_connection verify hash sid token g)
  drops : (sid : ℕ) (g : Gateway) → Step g (drop_socket sid g)
  join_writes :
      (fails : Bool) (name : Option Text) (now sid : ℕ) (g : Gateway)
      → Step g (write_join fails name now sid g)
  join_ends : (fails : Bool) (count sid : ℕ) (g : Gateway) → Step g (finish_join fails count sid g)
  leave_writes :
      (fails : Bool) (now participant_id : ℕ) (g : Gateway)
      → Step g (write_leave fails now participant_id g)
  leave_ends :
      (fails : Bool) (count participant_id : ℕ) (g : Gateway)
      → Step g (finish_leave fails count participant_id g)
  texts :
      (p : Platform) (fails : Bool) (now sid : ℕ) (body : Option Text) (g : Gateway)
      → Step g (handle_send_text p fails now sid body g).1
  renames :
      (fails : Bool) (sid : ℕ) (body : Option Text) (g : Gateway)
      → Step g (handle_rename fails sid body g).1
  types : (sid : ℕ) (body : Option Bool) (g : Gateway) → Step g (handle_typing sid body g)
  closes :
      (fails : ObjectKey → Bool) (sid : ℕ) (g : Gateway) → Step g (handle_close_room fails sid g).1
  -- The HTTP handlers and the sweeper, which write no Participant and emit no roster.
  works :
      (w : World) (g : Gateway)
      → w.participants ≡ g.participants
      → ((room : ℕ) → last_roster room [] w.emitted ≡ last_roster room [] g.emitted)
      → Step g (record g { world = w })

pub data Reach (s : Gateway) : Gateway → Type 0 where
  here : Reach s s
  next : {g h : Gateway} → Reach s g → Step g h → Reach s h

-- The rows of these leaves are disconnected, one after another.
unfoldable pub write_all : ℕ → List ConnectedParticipant → Gateway → Gateway
unfolding write_leave
write_all now [] g = g
write_all now (info ∷ infos) g = write_all now infos (write_leave false now info.participant_id g)

-- These leaves end, one after another; `count` is what is counted for each.
unfoldable pub end_all : (ConnectedParticipant → ℕ) → List ConnectedParticipant → Gateway → Gateway
unfolding finish_leave
end_all count [] g = g
end_all count (info ∷ infos) g =
    end_all count infos (finish_leave false (count info) info.participant_id g)

-- All the leaves that wait go on to their end.
unfoldable pub settle : ℕ → (ConnectedParticipant → ℕ) → Gateway → Gateway
unfolding write_all end_all
settle now count g = let g₁ = write_all now g.leaving g in end_all count g₁.parting g₁
