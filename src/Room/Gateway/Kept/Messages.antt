-- ===== src/Room/Gateway/Kept/Messages.antt =====
-- Rows, connections and sockets under the handlers of messages in
-- apps/api/src/room/room.gateway.ts.
use synxor.Common.{
  ℕ, ◌≡◌, Bool, Option, some, List, [], ◌∷◌, Text, lookup, insert, Result, nat_eq, if-split,
  option-split, result-split, arith,
}
use synxor.Participant.Entity.{sender}
use synxor.Participant.Identity.{sanitize_display_name}
use synxor.Participant.Repository.{role_beq}
use synxor.Room.Events.{others, everyone, closed, identity}
use synxor.Room.Gateway.{ConnectedParticipant, Gateway, emit, with_participants}
use synxor.Room.Gateway.Handlers.{
  Refusal, Platform, send_valid, handle_send_text, set_identity, rename_schema, handle_rename,
  handle_typing, other_sockets, drop_all, close_as_sender, handle_close_room,
}
use synxor.Room.Gateway.Kept.{
  IsConsistent, IsConsistent-same, emit-IsConsistent, drop_socket-IsConsistent,
}
use synxor.Room.Gateway.Rows.Booked.{rename-IsBooked}
use synxor.Room.Gateway.Rows.Moved.{pending}
use synxor.Room.Gateway.Sockets.{update-IsAlive}
use synxor.Room.Presence.{rename}
use synxor.Room.Service.{close, purge_then, purge_room_contents}
use synxor.Room.World.{World}
use synxor.Storage.Key.{ObjectKey}

-- Closing the Room writes no Participant and emits nothing itself.
pub close-quiet :
    (fails : ObjectKey → Bool) (room : ℕ) (w : World)
    → let w' = (close fails room w).1 in
      (w'.participants ≡ w.participants) × (w'.emitted ≡ w.emitted)
unfolding close purge_then purge_room_contents
close-quiet fails room w = ground arith

module _ (g : Gateway) (k : IsConsistent g) where
  -- The rest of the database changes, and the Participants do not.
  pub world-IsConsistent :
      (w : World) → w.participants ≡ g.participants → IsConsistent (record g { world = w })
  world-IsConsistent w h = IsConsistent-same g _ (ground (arith, h)) k

  pub handle_send_text-IsConsistent :
      (p : Platform) (fails : Bool) (now sid : ℕ) (body : Option Text)
      → IsConsistent (handle_send_text p fails now sid body g).1
  unfolding handle_send_text send_valid emit
  handle_send_text-IsConsistent p fails now sid body = IsConsistent-same g _ (ground arith) k

  pub handle_typing-IsConsistent :
      (sid : ℕ) (body : Option Bool) → IsConsistent (handle_typing sid body g)
  unfolding handle_typing emit
  handle_typing-IsConsistent sid body = IsConsistent-same g _ (ground arith) k

  renamed-IsConsistent :
      (sid : ℕ) (name : Text) (info : ConnectedParticipant)
      → lookup sid g.connected ≡ some info
      → (let (renamed, r) = rename info.room_id info.token_hash (some name) g.participants in
          IsConsistent (
            emit (everyone info.room_id) (identity renamed) (record (with_participants r g) {
              connected = insert sid (set_identity renamed info) g.connected;
            })))
  unfolding rename emit
  renamed-IsConsistent sid name info h =
      let i = (rename info.room_id info.token_hash (some name) g.participants).0 in
      record {
        booked =
            rename-IsBooked g.participants g.connected (pending g.leaving g.stranded g.entering)
              k.booked sid info i info.room_id info.token_hash (sanitize_display_name (some name))
              h;
        alive =
            update-IsAlive g.sockets g.joining g.connected k.alive sid info (set_identity i info) h;
        entering_keyed = k.entering_keyed;
      }

  pub handle_rename-IsConsistent :
      (fails : Bool) (sid : ℕ) (body : Option Text)
      → IsConsistent (handle_rename fails sid body g).1
  unfolding handle_rename
  handle_rename-IsConsistent fails sid body =
      let Q : Result Refusal _ × Gateway → Type 0 = λ x. IsConsistent x.1 in
      option-split Q (lookup sid g.connected) (λ _. k)
        (λ info h.
          option-split Q body (λ _. k)
            (λ name _.
              if-split Q (rename_schema name)
                (λ _. if-split Q fails (λ _. k) (λ _. renamed-IsConsistent sid name info h))
                (λ _. k)))

pub drop_all-IsConsistent :
    (ks : List ℕ) (g : Gateway) → IsConsistent g → IsConsistent (drop_all ks g)
unfolding drop_all
drop_all-IsConsistent [] g k = k
drop_all-IsConsistent (s ∷ ks) g k = drop_all-IsConsistent ks _ (drop_socket-IsConsistent g k s)

close_as_sender-IsConsistent :
    (fails : ObjectKey → Bool) (sid : ℕ) (info : ConnectedParticipant) (g : Gateway)
    → IsConsistent g
    → IsConsistent (close_as_sender fails sid info g).1
unfolding close_as_sender
close_as_sender-IsConsistent fails sid info g k =
    let w = (close fails info.room_id g.world).1 in
    let k' = world-IsConsistent g k w (close-quiet fails info.room_id g.world).0 in
    result-split (λ (x : Result Refusal (Unit {0}) × Gateway). IsConsistent x.1)
      (close fails info.room_id g.world).0 (λ _ _. k')
      (λ _ _.
        drop_all-IsConsistent (other_sockets info.room_id sid g.connected) _
          (emit-IsConsistent (others info.room_id sid) closed (record g { world = w }) k'))

pub handle_close_room-IsConsistent :
    (fails : ObjectKey → Bool) (sid : ℕ) (g : Gateway)
    → IsConsistent g
    → IsConsistent (handle_close_room fails sid g).1
unfolding handle_close_room
handle_close_room-IsConsistent fails sid g k =
    let Q : Result Refusal (Unit {0}) × Gateway → Type 0 = λ x. IsConsistent x.1 in
    option-split Q (lookup sid g.connected) (λ _. k)
      (λ info _.
        if-split Q (role_beq info.role sender)
          (λ _. close_as_sender-IsConsistent fails sid info g k) (λ _. k))
