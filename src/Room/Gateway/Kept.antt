-- ===== src/Room/Gateway/Kept.antt =====
-- Rows, connections and sockets under the operations of apps/api/src/room/room.gateway.ts.
pub mod Messages
pub mod Waits
use synxor.Common.{
  ℕ, ◌≡◌, not, refl, subst, Bool, Option, none, some, List, [], ◌∷◌, ◌++◌, Text, Dict, values,
  lookup, insert, erase, lookup-erase, lookup-insert, nat_eq, if-split, option-split, IsKeyed,
  insert-IsKeyed, erase-IsKeyed, arith,
}
use synxor.Participant.Entity.{ParticipantRole, Participant}
use synxor.Participant.Repository.{ParticipantRepository, create, set_disconnected}
use synxor.Room.Events.{Event, Audience}
use synxor.Room.Gateway.{
  is_present, ConnectedParticipant, Joining, Gateway, emit, on_participant_left, drop_socket,
  handle_connection, authenticate, join_input, entry, is_live, announce_join, on_recorded,
  write_join, finish_join, find_leaving, remove_leaving, announce_leave, write_leave, finish_leave,
}
use synxor.Room.Gateway.Rows.{IsBooked, find_leaving-append}
use synxor.Room.Gateway.Rows.Booked.{write-IsBooked, drop-IsBooked, left-IsBooked}
use synxor.Room.Gateway.Rows.Moved.{
  pending, IsMoved-IsBooked, enter-IsBooked, insert-IsMoved, erase-IsMoved, strand-IsMoved,
  remove-IsMoved,
}
use synxor.Room.Gateway.Sockets.{
  IsAlive, IsAlive-apart, down-IsAlive, missed-IsAlive, open-IsAlive, refuse-IsAlive, drop-IsAlive,
  end-IsAlive, join-IsAlive, leave-IsAlive,
}
use synxor.Room.Presence.{JoinResult}
use synxor.Transfer.Http.{TokenClaims}

-- The rows are those of the connections, and the connections those of sockets that are there.
pub record IsConsistent (g : Gateway) : Type 0 where
  pub booked : IsBooked g.participants g.connected (pending g.leaving g.stranded g.entering)
  pub alive : IsAlive g.sockets g.joining g.connected
  pub entering_keyed : IsKeyed g.entering

-- What `IsConsistent` is about.
abbrev pub books :
    Gateway
    → ParticipantRepository
      × Dict ℕ ConnectedParticipant
      × List ConnectedParticipant
      × Dict ℕ Bool
      × Dict ℕ Joining
      × Dict ℕ ConnectedParticipant
      × List ConnectedParticipant
      × List ConnectedParticipant
      × List ConnectedParticipant
books g = (
  g.participants, g.connected, g.leaving, g.sockets, g.joining, g.entering, g.stranded, g.parting,
  g.unseen,
)

pub IsConsistent-same : (g h : Gateway) → books g ≡ books h → IsConsistent g → IsConsistent h
IsConsistent-same g h e k =
    let moved =
      subst (λ b. IsBooked b.0 b.1 (pending b.2 b.6 b.5) × IsAlive b.3 b.4 b.1 × IsKeyed b.5) e
        (k.booked, k.alive, k.entering_keyed) in
    record { booked = moved.0; alive = moved.1; entering_keyed = moved.2 }

pub emit-IsConsistent :
    (to : Audience) (e : Event) (g : Gateway) → IsConsistent g → IsConsistent (emit to e g)
unfolding emit
emit-IsConsistent to e g k = IsConsistent-same g _ refl k

pub books-announce_join :
    (sid room : ℕ) (role : ParticipantRole) (b : Bool) (result : JoinResult) (g : Gateway)
    → books g ≡ books (announce_join sid room role b result g)
unfolding announce_join emit
books-announce_join sid room role b result g = ground arith

pub books-announce_leave :
    (info : ConnectedParticipant) (n : ℕ) (g : Gateway) → books g ≡ books (announce_leave info n g)
unfolding announce_leave emit
books-announce_leave info n g = ground arith

module _ (g : Gateway) (k : IsConsistent g) where
  on_participant_left-IsConsistent : (sid : ℕ) → IsConsistent (on_participant_left sid g)
  unfolding on_participant_left
  on_participant_left-IsConsistent sid =
      option-split IsConsistent (lookup sid g.connected) (λ _. k)
        (λ info h. record {
          booked =
              drop-IsBooked g.participants g.connected (pending g.leaving g.stranded g.entering)
                k.booked sid info h;
          alive = leave-IsAlive g.sockets g.joining g.connected k.alive sid;
          entering_keyed = k.entering_keyed;
        })

  pub drop_socket-IsConsistent : (sid : ℕ) → IsConsistent (drop_socket sid g)
  unfolding drop_socket on_participant_left
  drop_socket-IsConsistent sid =
      option-split IsConsistent (lookup sid g.connected)
        (λ n. record {
          booked = k.booked;
          alive = down-IsAlive g.sockets g.joining g.connected k.alive sid n;
          entering_keyed = k.entering_keyed;
        })
        (λ info h. record {
          booked =
              drop-IsBooked g.participants g.connected (pending g.leaving g.stranded g.entering)
                k.booked sid info h;
          alive = drop-IsAlive g.sockets g.joining g.connected k.alive sid;
          entering_keyed = k.entering_keyed;
        })

  pub handle_connection-IsConsistent :
      (verify : Text → Option TokenClaims) (hash : Text → Text) (sid : ℕ) (token : Option Text)
      → lookup sid g.sockets ≡ none
      → IsConsistent (handle_connection verify hash sid token g)
  unfolding handle_connection
  handle_connection-IsConsistent verify hash sid token fresh =
      option-split IsConsistent (authenticate verify token)
        (λ _. record {
          booked = k.booked;
          alive = refuse-IsAlive g.sockets g.joining g.connected k.alive sid fresh;
          entering_keyed = k.entering_keyed;
        })
        (λ auth _. record {
          booked = k.booked;
          alive =
              open-IsAlive g.sockets g.joining g.connected k.alive sid
                (record { claims = auth.1; token_hash = hash auth.0 }) fresh;
          entering_keyed = k.entering_keyed;
        })

  pub waited-IsConsistent :
      (sid : ℕ) (j : Joining)
      → lookup sid g.joining ≡ some j
      → IsConsistent (record g { joining = erase sid g.joining })
  waited-IsConsistent sid j h = record {
    booked = k.booked;
    alive = end-IsAlive g.sockets g.joining g.connected k.alive sid j h;
    entering_keyed = k.entering_keyed;
  }
