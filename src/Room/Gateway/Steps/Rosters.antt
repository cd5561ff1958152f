-- ===== src/Room/Gateway/Steps/Rosters.antt =====
-- The roster that clients saw last, in the states that the gateway of
-- apps/api/src/room/room.gateway.ts reaches.
use synxor.Common.{
  ℕ, ◌≡◌, refl, sym, ap, Bool, true, false, ◌||◌, Option, none, some, List, [], ◌∷◌, any, Text,
  lookup, insert, nat_eq, IsKeyed, All-lookup, All-insert, if-split, option-split, result-split,
  Result, arith,
}
use synxor.Participant.Entity.{sender}
use synxor.Participant.Identity.{derive_identity, sanitize_display_name}
use synxor.Participant.Repository.{role_beq}
use synxor.Room.Events.{others, everyone, closed, identity}
use synxor.Room.Gateway.{ConnectedParticipant, Gateway, emit, is_present, shows, with_participants}
use synxor.Room.Gateway.Handlers.{
  Refusal, Platform, send_valid, handle_send_text, set_identity, rename_schema, handle_rename,
  handle_typing, other_sockets, drop_all, close_as_sender, handle_close_room,
}
use synxor.Room.Gateway.Kept.{IsConsistent, drop_socket-IsConsistent, emit-IsConsistent}
use synxor.Room.Gateway.Kept.Messages.{close-quiet, world-IsConsistent}
use synxor.Room.Gateway.Roster.{has_name}
use synxor.Room.Gateway.Steps.{
  start, Step, opens, drops, join_writes, join_ends, leave_writes, leave_ends, texts, renames,
  types, closes, works, Reach, here, next, last_roster,
}
use synxor.Room.Gateway.Steps.Counted.{start-IsConsistent, Step-IsConsistent}
use synxor.Room.Gateway.Steps.ShownKept.{any-gone, IsNamed, update-IsShown, derive_identity-key}
use synxor.Room.Gateway.Steps.Watched.{
  IsWatched, IsWatched-same, IsWatched-emit, write_join-IsWatched, finish_join-IsWatched,
  write_leave-IsWatched, finish_leave-IsWatched, drop_socket-IsWatched, handle_connection-IsWatched,
}
use synxor.Room.Presence.{rename}
use synxor.Room.Presence.Renames.{Fits}
use synxor.Room.Service.{close}
use synxor.Room.World.{World}
use synxor.Transfer.Text.{send_text_schema}
use synxor.Storage.Key.{ObjectKey}

module _ (g : Gateway) (k : IsConsistent g) (w : IsWatched g) where
  -- What is emitted is no roster.
  handle_send_text-IsWatched :
      (p : Platform) (fails : Bool) (now sid : ℕ) (body : Option Text)
      → IsWatched (handle_send_text p fails now sid body g).1
  unfolding handle_send_text send_valid
  handle_send_text-IsWatched p fails now sid body =
      let Q : Result Refusal _ × Gateway → Type 0 = λ x. IsWatched x.1 in
      option-split Q (lookup sid g.connected) (λ _. w)
        (λ info _.
          option-split Q body (λ _. w)
            (λ t _.
              if-split Q (send_text_schema t)
                (λ _.
                  if-split Q fails (λ _. w)
                    (λ _. IsWatched-emit g _ _ _ refl refl refl refl (λ _ _. refl) w))
                (λ _. w)))

  handle_typing-IsWatched : (sid : ℕ) (body : Option Bool) → IsWatched (handle_typing sid body g)
  unfolding handle_typing
  handle_typing-IsWatched sid body =
      option-split IsWatched (lookup sid g.connected) (λ _. w)
        (λ info _.
          option-split IsWatched body (λ _. w)
            (λ typing _. IsWatched-emit g _ _ _ refl refl refl refl (λ _ _. refl) w))

  renamed-IsWatched :
      (sid : ℕ) (name : Text) (info : ConnectedParticipant)
      → lookup sid g.connected ≡ some info
      → (let (renamed, r) = rename info.room_id info.token_hash (some name) g.participants in
          IsWatched (
            emit (everyone info.room_id) (identity renamed) (record (with_participants r g) {
              connected = insert sid (set_identity renamed info) g.connected;
            })))
  unfolding rename
  renamed-IsWatched sid name info h =
      let i = derive_identity info.token_hash (sanitize_display_name (some name)) in
      let own = All-lookup IsNamed sid info g.connected w.named h in
      IsWatched-emit (record g { connected = insert sid (set_identity i info) g.connected }) _ _ _
        refl refl refl refl (λ _ _. refl)
        (record {
          named_entering = w.named_entering;
          shown = update-IsShown sid info (sanitize_display_name (some name)) g h own w.shown;
          named =
              All-insert IsNamed sid (set_identity i info) g.connected w.named
                (derive_identity-key info.token_hash (sanitize_display_name (some name)) none);
        })

  handle_rename-IsWatched :
      (fails : Bool) (sid : ℕ) (body : Option Text) → IsWatched (handle_rename fails sid body g).1
  unfolding handle_rename
  handle_rename-IsWatched fails sid body =
      let Q : Result Refusal _ × Gateway → Type 0 = λ x. IsWatched x.1 in
      option-split Q (lookup sid g.connected) (λ _. w)
        (λ info h.
          option-split Q body (λ _. w)
            (λ name _.
              if-split Q (rename_schema name)
                (λ _. if-split Q fails (λ _. w) (λ _. renamed-IsWatched sid name info h)) (λ _. w)))

drop_all-IsWatched :
    (ks : List ℕ) (g : Gateway) → IsConsistent g → IsWatched g → IsWatched (drop_all ks g)
unfolding drop_all
drop_all-IsWatched [] g k w = w
drop_all-IsWatched (s ∷ ks) g k w =
    drop_all-IsWatched ks _ (drop_socket-IsConsistent g k s)
      (drop_socket-IsWatched s g k.booked.entries_keyed w)

close_as_sender-IsWatched :
    (fails : ObjectKey → Bool) (sid : ℕ) (info : ConnectedParticipant) (g : Gateway)
    → IsConsistent g
    → IsWatched g
    → IsWatched (close_as_sender fails sid info g).1
unfolding close_as_sender
close_as_sender-IsWatched fails sid info g k w =
    let after = (close fails info.room_id g.world).1 in
    let (same, quiet) = close-quiet fails info.room_id g.world in
    let g₁ = record g { world = after } in
    let w₁ : IsWatched g₁ =
      IsWatched-same g _
        (record {
          same_connected = refl;
          same_entering = refl;
          same_gone = λ _. refl;
          same_roster = λ room. ap (last_roster room []) (sym quiet);
        })
        w in
    result-split (λ (x : Result Refusal (Unit {0}) × Gateway). IsWatched x.1)
      (close fails info.room_id g.world).0 (λ _ _. w₁)
      (λ _ _.
        drop_all-IsWatched (other_sockets info.room_id sid g.connected) _
          (emit-IsConsistent (others info.room_id sid) closed g₁
            (world-IsConsistent g k after same))
          (IsWatched-emit g₁ g₁ _ _ refl refl refl refl (λ _ _. refl) w₁))

handle_close_room-IsWatched :
    (fails : ObjectKey → Bool) (sid : ℕ) (g : Gateway)
    → IsConsistent g
    → IsWatched g
    → IsWatched (handle_close_room fails sid g).1
unfolding handle_close_room
handle_close_room-IsWatched fails sid g k w =
    let Q : Result Refusal (Unit {0}) × Gateway → Type 0 = λ x. IsWatched x.1 in
    option-split Q (lookup sid g.connected) (λ _. w)
      (λ info _.
        if-split Q (role_beq info.role sender) (λ _. close_as_sender-IsWatched fails sid info g k w)
          (λ _. w))

Step-IsWatched : {g h : Gateway} → Step g h → IsConsistent g → IsWatched g → IsWatched h
Step-IsWatched (opens verify hash sid token g fresh) k w =
    handle_connection-IsWatched verify hash sid token g w
Step-IsWatched (drops sid g) k w = drop_socket-IsWatched sid g k.booked.entries_keyed w
Step-IsWatched (join_writes fails name now sid g) k w =
    write_join-IsWatched g k w fails name now sid
Step-IsWatched (join_ends fails n sid g) k w = finish_join-IsWatched g k w fails n sid
Step-IsWatched (leave_writes fails now pid g) k w = write_leave-IsWatched g k w fails now pid
Step-IsWatched (leave_ends fails n pid g) k w = finish_leave-IsWatched g k w fails n pid
Step-IsWatched (texts p fails now sid body g) k w =
    handle_send_text-IsWatched g k w p fails now sid body
Step-IsWatched (renames fails sid body g) k w = handle_rename-IsWatched g k w fails sid body
Step-IsWatched (types sid body g) k w = handle_typing-IsWatched g k w sid body
Step-IsWatched (closes fails sid g) k w = handle_close_room-IsWatched fails sid g k w
Step-IsWatched (works v g h quiet) k w =
    IsWatched-same g _
      (record {
        same_connected = refl;
        same_entering = refl;
        same_gone = λ _. refl;
        same_roster = λ room. sym (quiet room);
      })
      w

Reach-IsWatched :
    {s g : Gateway} → IsConsistent s → IsWatched s → Reach s g → IsConsistent g × IsWatched g
Reach-IsWatched k w here = (k, w)
Reach-IsWatched k w (next r st) =
    let (k', w') = Reach-IsWatched k w r in (Step-IsConsistent st k', Step-IsWatched st k' w')

start-IsWatched : (now : ℕ) (w : World) → IsWatched (start now w)
unfolding start is_present last_roster
start-IsWatched now w = record { shown = λ _ _. refl; named = tt; named_entering = tt }

-- Where the database has each Participant once under an id from its counter when the process
-- starts, then in every state that is reached, failed joins and leaves included (a rename and a
-- closing are one step each), the roster that the Room's clients saw last lists every identity that
-- has a connection in the Room; and whom it lists beside these went, in a leave that waits or in
-- one that failed, after which nothing is broadcast.
pub Reach-roster :
    (now : ℕ) (w : World) (g : Gateway)
    → Fits w.participants.next_id w.participants.stored
    → IsKeyed w.participants.stored
    → Reach (start now w) g
    → (room : ℕ) (key : Text)
    → let listed = any (has_name key) (last_roster room [] g.emitted) in
      (is_present room key g ≡ true → listed ≡ true)
      × (listed ≡ true
          → is_present room key g ≡ false
          → (any (shows room key) g.leaving
              || any (shows room key) g.parting
              || any (shows room key) g.unseen)
            ≡ true)
Reach-roster now w g fits keyed r room key =
    let (_, watched) =
      Reach-IsWatched (start-IsConsistent now w fits keyed) (start-IsWatched now w) r in
    let seen = watched.shown room key in
    (
      λ h. ground (arith, seen, h),
      λ h n. ground (arith, seen, h, n, any-gone (shows room key) g.leaving g.parting g.unseen),
    )
