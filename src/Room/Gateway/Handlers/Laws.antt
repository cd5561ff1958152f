-- ===== src/Room/Gateway/Handlers/Laws.antt =====
-- Who may close a Room over its socket, whom that evicts, and sockets that have not joined, in
-- apps/api/src/room/room.gateway.ts.
use synxor.Common.{
  ℕ, ◌≡◌, refl, ap, ◌∙◌, inl, inr, Option-cases, text_beq_iff, text_eq, Bool, false, not, ◌&&◌,
  ◌==◌, if◌then◌else◌, has, Option, none, some, List, [], ◌∷◌, Text, Dict, lookup, lookup-insert,
  lookup-erase, IsKeyed, nat_eq, Result, ok, err, arith, option-split, if-split,
}
use synxor.Participant.Entity.{sender}
use synxor.Participant.Repository.{role_beq}
use synxor.Room.Events.{others, closed}
use synxor.Room.Gateway.{ConnectedParticipant, Gateway, emit, on_participant_left, drop_socket}
use synxor.Room.Gateway.Handlers.{
  Refusal, not_joined, not_sender, Platform, handle_send_text, handle_rename, handle_typing,
  other_sockets, drop_all, close_as_sender, handle_close_room,
}
use synxor.Room.Entity.{Room}
use synxor.Room.Entity.RoomStatus.{closed as closed_status}
use synxor.Room.Repository.{find_by_id, find_by_code, update_status}
use synxor.Room.World.{World}
use synxor.Room.Service.{close, purge_room_contents}
use synxor.Storage.Key.{ObjectKey}

-- Whether closing the Room evicts this connection.
abbrev pub evicts : ℕ → ℕ → ℕ → Option ConnectedParticipant → Bool
evicts room sid k none = false
evicts room sid k (some e) = e.room_id == room && not (k == sid)

has-other_sockets :
    (room sid k : ℕ) (d : Dict ℕ ConnectedParticipant)
    → IsKeyed d
    → has k (other_sockets room sid d) ≡ evicts room sid k (lookup k d)
unfolding other_sockets
has-other_sockets room sid k [] h = refl
has-other_sockets room sid k ((j, e) ∷ d) h = ground (arith, has-other_sockets room sid k d h.1)

drop_socket_lem :
    (s k : ℕ) (g : Gateway)
    → let g' = drop_socket s g in
      (g'.rooms ≡ g.rooms)
      × (lookup k g'.connected ≡ (if k == s then none else lookup k g.connected))
      × (lookup k g'.sockets ≡ (if k == s then some false else lookup k g.sockets))
unfolding drop_socket on_participant_left
drop_socket_lem s k g =
    ground (arith, lookup-erase s k g.connected, lookup-insert s k false g.sockets)

drop_all_lem :
    (ks : List ℕ) (k : ℕ) (g : Gateway)
    → let g' = drop_all ks g in
      (g'.rooms ≡ g.rooms)
      × (lookup k g'.connected ≡ (if has k ks then none else lookup k g.connected))
      × (lookup k g'.sockets ≡ (if has k ks then some false else lookup k g.sockets))
unfolding drop_all
drop_all_lem [] k g = (refl, refl, refl)
drop_all_lem (s ∷ ks) k g =
    ground (arith, drop_all_lem ks k (drop_socket s g), drop_socket_lem s k g)

-- What a closing that succeeds stores.
pub IsClosed : World → ℕ → World → Type 0
IsClosed before room_id after =
    (room : Room) × (find_by_id room_id before.rooms ≡ some room)
    × (find_by_code room.code after.rooms ≡ some (record room { status = closed_status }))

close-IsClosed :
    (fails : ObjectKey → Bool) (room_id : ℕ) (w : World)
    → (close fails room_id w).0 ≡ ok tt
    → IsClosed w room_id (close fails room_id w).1
unfolding IsClosed close purge_room_contents update_status find_by_code
close-IsClosed fails room_id w = elim (Option-cases (find_by_id room_id w.rooms)) [
  | inl none_there ↦ λ done. absurd (ground (arith, none_there, done))
  | inr (room, there) ↦ λ done. (
    room,
    there,
    ground (
      arith,
      there,
      done,
      lookup-insert room.code room.code (record room { status = closed_status }) w.rooms.stored,
      text_beq_iff room.code room.code,
    ),
  )
]

kept-IsClosed :
    (before : World) (room_id : ℕ) (w w' : World)
    → w'.rooms ≡ w.rooms
    → IsClosed before room_id w
    → IsClosed before room_id w'
unfolding IsClosed
kept-IsClosed before room_id w w' same (room, found, now_closed) =
    (room, found, ap (find_by_code room.code) same ∙ now_closed)

close_as_sender_lem :
    (fails : ObjectKey → Bool) (sid k : ℕ) (info : ConnectedParticipant) (g : Gateway)
    → IsKeyed g.connected
    → (close_as_sender fails sid info g).0 ≡ ok tt
    → let g' = (close_as_sender fails sid info g).1 in
      let evicted = evicts info.room_id sid k (lookup k g.connected) in
      ((close fails info.room_id g.world).0 ≡ ok tt)
      × (g'.rooms ≡ (close fails info.room_id g.world).1.rooms)
      × (lookup k g'.connected ≡ (if evicted then none else lookup k g.connected))
      × (lookup k g'.sockets ≡ (if evicted then some false else lookup k g.sockets))
unfolding close_as_sender emit
close_as_sender_lem fails sid k info g keyed done =
    let w = (close fails info.room_id g.world).1 in
    let g₁ = emit (others info.room_id sid) closed (record g { world = w }) in
    let l = drop_all_lem (other_sockets info.room_id sid g.connected) k g₁ in
    ground (arith, done, l, has-other_sockets info.room_id sid k g.connected keyed)

-- When closing is acknowledged, over connections each listed once: it came from a Sender, the Room
-- was there and is stored as closed, every other connection of the Room is gone and its socket disconnected, and the
-- Sender's own and those of the other Rooms stay.
pub handle_close_room-evicts :
    (fails : ObjectKey → Bool) (sid k : ℕ) (g : Gateway)
    → IsKeyed g.connected
    → (handle_close_room fails sid g).0 ≡ ok tt
    → let g' = (handle_close_room fails sid g).1 in
      (info : ConnectedParticipant) × (lookup sid g.connected ≡ some info)
      × (info.role ≡ sender)
      × IsClosed g.world info.room_id g'.world
      × (let evicted = evicts info.room_id sid k (lookup k g.connected) in
          (lookup k g'.connected ≡ (if evicted then none else lookup k g.connected))
          × (lookup k g'.sockets ≡ (if evicted then some false else lookup k g.sockets)))
unfolding handle_close_room
handle_close_room-evicts fails sid k g keyed done =
    let Q : Result Refusal (Unit {0}) × Gateway → Type 0 = λ x.
      x.0 ≡ ok tt
      → (info : ConnectedParticipant) × (lookup sid g.connected ≡ some info)
        × (info.role ≡ sender)
        × IsClosed g.world info.room_id x.1.world
        × (let evicted = evicts info.room_id sid k (lookup k g.connected) in
            (lookup k x.1.connected ≡ (if evicted then none else lookup k g.connected))
            × (lookup k x.1.sockets ≡ (if evicted then some false else lookup k g.sockets))) in
    option-split Q (lookup sid g.connected) (λ _ d. absurd cc)
      (λ info h.
        if-split Q (role_beq info.role sender)
          (λ r d.
            let l = close_as_sender_lem fails sid k info g keyed d in
            let was = close-IsClosed fails info.room_id g.world l.0 in
            let stays : IsClosed g.world info.room_id (close_as_sender fails sid info g).1.world =
              kept-IsClosed g.world info.room_id _ _ l.1 was in
            (info, h, ground (arith, r), stays, (l.2, l.3)))
          (λ _ d. absurd cc))
      done

-- A socket that has not joined changes nothing with any message, and whoever is no Sender closes
-- nothing.
pub unjoined_lem :
    (p : Platform) (fails : Bool) (removal : ObjectKey → Bool) (now sid : ℕ)
    (body name : Option Text) (typing : Option Bool) (g : Gateway)
    → lookup sid g.connected ≡ none
    → (handle_send_text p fails now sid body g ≡ (err not_joined, g))
      × (handle_rename fails sid name g ≡ (err not_joined, g))
      × (handle_typing sid typing g ≡ g)
      × (handle_close_room removal sid g ≡ (err not_sender, g))
unfolding handle_send_text handle_rename handle_typing handle_close_room
unjoined_lem p fails removal now sid body name typing g h = ground (arith, h)
