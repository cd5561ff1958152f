-- ===== src/Room/Gateway/Steps/Counted.antt =====
-- The states that the gateway of apps/api/src/room/room.gateway.ts reaches: their connections and
-- their rows.
use synxor.Common.{
  ℕ, ◌+◌, ◌≡◌, refl, ◌&&◌, ◌==◌, if◌then◌else◌, none, some, List, [], ◌∷◌, values, lookup, IsKeyed,
  nat_eq, Dict, count, arith,
}
use synxor.Participant.Entity.{ParticipantRole, Participant}
use synxor.Participant.Repository.{
  count_connected, mark_all_disconnected, disconnect_rows, is_connected, role_fits,
}
use synxor.Room.Gateway.{ConnectedParticipant, Gateway}
use synxor.Room.Gateway.Kept.{
  IsConsistent, handle_connection-IsConsistent, drop_socket-IsConsistent,
}
use synxor.Room.Gateway.Kept.Waits.{
  write_join-IsConsistent, finish_join-IsConsistent, write_leave-IsConsistent,
  finish_leave-IsConsistent,
}
use synxor.Room.Gateway.Kept.Messages.{
  world-IsConsistent, handle_send_text-IsConsistent, handle_rename-IsConsistent,
  handle_typing-IsConsistent, handle_close_room-IsConsistent,
}
use synxor.Room.Gateway.Rows.{holders, connected_row, is_at}
use synxor.Room.Gateway.Rows.Moved.{count-pending}
use synxor.Room.Gateway.Steps.{
  start, Step, opens, drops, join_writes, join_ends, leave_writes, leave_ends, texts, renames,
  types, closes, works, Reach, here, next,
}
use synxor.Room.Presence.Renames.{Fits}
use synxor.Room.World.{World}

lookup-disconnect_rows :
    (now k : ℕ) (d : Dict ℕ Participant)
    → lookup k (disconnect_rows now d).0 ≡ (elim (lookup k d) [
      | none ↦ none
      | some p ↦ some (if is_connected p then record p { disconnected_at = some now } else p)
    ])
unfolding disconnect_rows
lookup-disconnect_rows now k [] = refl
lookup-disconnect_rows now k ((j, p) ∷ d) = ground (arith, lookup-disconnect_rows now k d)

Fits-disconnect_rows :
    (now n : ℕ) (d : Dict ℕ Participant) → Fits n d → Fits n (disconnect_rows now d).0
unfolding disconnect_rows
Fits-disconnect_rows now n [] h = tt
Fits-disconnect_rows now n ((j, p) ∷ d) h = ground (arith, Fits-disconnect_rows now n d h.2)

IsKeyed-disconnect_rows :
    (now : ℕ) (d : Dict ℕ Participant) → IsKeyed d → IsKeyed (disconnect_rows now d).0
unfolding disconnect_rows
IsKeyed-disconnect_rows now [] h = tt
IsKeyed-disconnect_rows now ((j, p) ∷ d) h =
    ground (arith, IsKeyed-disconnect_rows now d h.1, lookup-disconnect_rows now j d)

count-disconnect_rows :
    (now room : ℕ) (role : ParticipantRole) (d : Dict ℕ Participant)
    → count
        (λ p. p.room_id == room && is_connected p && role_fits (some role) p)
        (values (disconnect_rows now d).0)
      ≡ 0
unfolding disconnect_rows
count-disconnect_rows now room role [] = refl
count-disconnect_rows now room role ((j, p) ∷ d) =
    ground (arith, count-disconnect_rows now room role d)

pub start-IsConsistent :
    (now : ℕ) (w : World)
    → Fits w.participants.next_id w.participants.stored
    → IsKeyed w.participants.stored
    → IsConsistent (start now w)
unfolding start mark_all_disconnected holders connected_row count_connected
start-IsConsistent now w fits keyed = record {
  booked = record {
    fits = Fits-disconnect_rows now w.participants.next_id w.participants.stored fits;
    rows_keyed = IsKeyed-disconnect_rows now w.participants.stored keyed;
    entries_keyed = tt;
    synced = λ pid. ground (arith, lookup-disconnect_rows now pid w.participants.stored);
    agreed = tt;
    agreed_leaving = tt;
    counted = λ room role. count-disconnect_rows now room role w.participants.stored;
  };
  alive = λ sid. refl;
  entering_keyed = tt;
}

pub Step-IsConsistent : {g h : Gateway} → Step g h → IsConsistent g → IsConsistent h
Step-IsConsistent (opens verify hash sid token g fresh) k =
    handle_connection-IsConsistent g k verify hash sid token fresh
Step-IsConsistent (drops sid g) k = drop_socket-IsConsistent g k sid
Step-IsConsistent (join_writes fails name now sid g) k =
    write_join-IsConsistent g k fails name now sid
Step-IsConsistent (join_ends fails n sid g) k = finish_join-IsConsistent g k fails n sid
Step-IsConsistent (leave_writes fails now pid g) k = write_leave-IsConsistent g k fails now pid
Step-IsConsistent (leave_ends fails n pid g) k = finish_leave-IsConsistent g k fails n pid
Step-IsConsistent (texts p fails now sid body g) k =
    handle_send_text-IsConsistent g k p fails now sid body
Step-IsConsistent (renames fails sid body g) k = handle_rename-IsConsistent g k fails sid body
Step-IsConsistent (types sid body g) k = handle_typing-IsConsistent g k sid body
Step-IsConsistent (closes fails sid g) k = handle_close_room-IsConsistent fails sid g k
Step-IsConsistent (works w g h _) k = world-IsConsistent g k w h

pub Reach-IsConsistent : {s g : Gateway} → IsConsistent s → Reach s g → IsConsistent g
Reach-IsConsistent k here = k
Reach-IsConsistent k (next r st) = Step-IsConsistent st (Reach-IsConsistent k r)

-- Who holds a row that is connected.
abbrev dues :
    Gateway
    → List ConnectedParticipant
      × Dict ℕ ConnectedParticipant
      × Dict ℕ ConnectedParticipant
      × List ConnectedParticipant
dues g = (g.leaving, g.connected, g.entering, g.stranded)

module _ (now : ℕ) (w : World) (fits : Fits w.participants.next_id w.participants.stored)
    (keyed : IsKeyed w.participants.stored) (g : Gateway) (r : Reach (start now w) g) where
  consistent : IsConsistent g
  consistent = Reach-IsConsistent (start-IsConsistent now w fits keyed) r

  -- Where the database has each Participant once under an id from its counter when the process
  -- starts, then in every state that is reached, with opened and dropped sockets, joins and leaves
  -- that wait, end or fail in any order, and all the messages (a rename and a closing are one step
  -- each): the Participants of a Room that the database has as connected in a role are as many as
  -- its connections with that role, its leaves whose row waits to be disconnected, its joins that
  -- wait with a row written, and the rows that a join or a leave left behind when it failed.
  pub Reach-count :
      (room : ℕ) (role : ParticipantRole)
      → count_connected room (some role) g.participants
        ≡ count (is_at room role) (values g.connected)
          + count (is_at room role) g.leaving
          + count (is_at room role) (values g.entering)
          + count (is_at room role) g.stranded
  Reach-count room role = ground (
    arith,
    consistent.booked.counted room role,
    count-pending (is_at room role) g.leaving g.stranded g.entering,
  )
