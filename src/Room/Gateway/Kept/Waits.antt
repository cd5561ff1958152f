-- ===== src/Room/Gateway/Kept/Waits.antt =====
-- Rows, connections and sockets when a wait of apps/api/src/room/room.gateway.ts ends.
use synxor.Common.{
  ℕ, ◌≡◌, not, refl, subst, Bool, Option, none, some, List, ◌∷◌, ◌++◌, Text, values, lookup, insert,
  erase, lookup-erase, lookup-insert, nat_eq, if-split, option-split, IsKeyed, insert-IsKeyed,
  erase-IsKeyed, arith,
}
use synxor.Participant.Entity.{Participant}
use synxor.Participant.Repository.{ParticipantRepository, create, set_disconnected}
use synxor.Room.Gateway.{
  is_present, ConnectedParticipant, Gateway, on_participant_left, join_input, entry, is_live,
  on_recorded, write_join, finish_join, find_leaving, remove_leaving, write_leave, finish_leave,
}
use synxor.Room.Gateway.Rows.{IsBooked, find_leaving-append}
use synxor.Room.Gateway.Rows.Booked.{write-IsBooked, drop-IsBooked, left-IsBooked}
use synxor.Room.Gateway.Rows.Moved.{
  pending, IsMoved-IsBooked, enter-IsBooked, insert-IsMoved, erase-IsMoved, strand-IsMoved,
  remove-IsMoved,
}
use synxor.Room.Gateway.Sockets.{IsAlive, IsAlive-apart, missed-IsAlive, end-IsAlive, join-IsAlive}
use synxor.Room.Presence.{JoinResult}
use synxor.Room.Gateway.Kept.{
  IsConsistent, books, IsConsistent-same, books-announce_join, books-announce_leave,
  drop_socket-IsConsistent, waited-IsConsistent,
}

-- A connection leaves that the connections have, though its socket has gone already.
left-IsConsistent :
    (sid : ℕ) (e : ConnectedParticipant) (g h : Gateway)
    → books g ≡ books h
    → lookup sid g.connected ≡ some e
    → IsBooked g.participants g.connected (pending g.leaving g.stranded g.entering)
    → IsAlive g.sockets g.joining (erase sid g.connected)
    → IsKeyed g.entering
    → IsConsistent (on_participant_left sid h)
unfolding on_participant_left
left-IsConsistent sid e g h same found b a keyed =
    let moved =
      subst
        (λ x.
          (lookup sid x.1 ≡ some e)
          × IsBooked x.0 x.1 (pending x.2 x.6 x.5)
          × IsAlive x.3 x.4 (erase sid x.1)
          × IsKeyed x.5)
        same (found, b, a, keyed) in
    option-split IsConsistent (lookup sid h.connected) (λ n. absurd (ground (arith, n, moved.0)))
      (λ info f. record {
        booked =
            drop-IsBooked h.participants h.connected (pending h.leaving h.stranded h.entering)
              moved.1 sid info f;
        alive = moved.2;
        entering_keyed = moved.3;
      })

-- A Participant with a row gets its connection.
on_recorded-IsConsistent :
    (sid n : ℕ) (e : ConnectedParticipant) (g : Gateway)
    → IsBooked g.participants g.connected (e ∷ pending g.leaving g.stranded g.entering)
    → IsAlive g.sockets g.joining g.connected
    → IsKeyed g.entering
    → lookup sid g.connected ≡ none
    → lookup sid g.joining ≡ none
    → IsConsistent (on_recorded sid e n g)
unfolding on_recorded
on_recorded-IsConsistent sid n e g b alive keyed free waited =
    let g₁ = record g { connected = insert sid e g.connected } in
    let first = not (is_present e.room_id e.identity.key g) in
    let result : JoinResult = record {
      participant_id = e.participant_id;
      receiver_count = n;
      identity = e.identity;
    } in
    let booked =
      enter-IsBooked g.participants g.connected sid e (pending g.leaving g.stranded g.entering) free
        b in
    if-split IsConsistent (is_live sid g)
      (λ live.
        IsConsistent-same g₁ _ (books-announce_join sid e.room_id e.role first result g₁) (record {
          booked = booked;
          alive =
              join-IsAlive g₁.sockets g₁.joining g.connected alive sid e (ground (arith, live))
                waited;
          entering_keyed = keyed;
        }))
      (λ gone.
        left-IsConsistent sid e g₁ _ (books-announce_join sid e.room_id e.role first result g₁)
          (ground (arith, lookup-insert sid sid e g.connected)) booked
          (missed-IsAlive g₁.sockets g₁.joining g.connected alive sid e free) keyed)

module _ (g : Gateway) (k : IsConsistent g) where
  -- The row of a join is written, or that failed and the socket is dropped.
  pub write_join-IsConsistent :
      (fails : Bool) (name : Option Text) (now sid : ℕ)
      → IsConsistent (write_join fails name now sid g)
  unfolding write_join create
  write_join-IsConsistent fails name now sid =
      option-split IsConsistent (lookup sid g.joining) (λ _. k)
        (λ j h.
          option-split IsConsistent (lookup sid g.entering)
            (λ free.
              if-split IsConsistent fails
                (λ _. drop_socket-IsConsistent _ (waited-IsConsistent g k sid j h) sid)
                (λ _.
                  let e = entry j name g.participants.next_id in
                  let input = join_input j name in
                  let (p, r) = create now input g.participants in
                  record {
                    booked =
                        IsMoved-IsBooked r g.connected _ _
                          (insert-IsMoved g.leaving g.stranded g.entering e sid free)
                          (write-IsBooked g.participants g.connected
                            (pending g.leaving g.stranded g.entering) k.booked now input e refl refl
                            refl);
                    alive = k.alive;
                    entering_keyed = insert-IsKeyed sid e g.entering k.entering_keyed;
                  }))
            (λ _ _. k))

  -- A join ends: its Participant gets a connection, or it failed and the row stays.
  pub finish_join-IsConsistent :
      (fails : Bool) (n sid : ℕ) → IsConsistent (finish_join fails n sid g)
  unfolding finish_join
  finish_join-IsConsistent fails n sid =
      option-split IsConsistent (lookup sid g.joining) (λ _. k)
        (λ j h.
          option-split IsConsistent (lookup sid g.entering) (λ _. k)
            (λ e found.
              let keyed = erase-IsKeyed sid g.entering k.entering_keyed in
              let alive = end-IsAlive g.sockets g.joining g.connected k.alive sid j h in
              let waits =
                IsMoved-IsBooked g.participants g.connected _ _
                  (erase-IsMoved g.leaving g.stranded g.entering e sid k.entering_keyed found)
                  k.booked in
              if-split IsConsistent fails
                (λ _.
                  drop_socket-IsConsistent _
                    (record {
                      booked =
                          IsMoved-IsBooked g.participants g.connected _ _
                            (strand-IsMoved g.leaving g.stranded (erase sid g.entering) e) waits;
                      alive = alive;
                      entering_keyed = keyed;
                    })
                    sid)
                (λ _.
                  on_recorded-IsConsistent sid n e
                    (record g { joining = erase sid g.joining; entering = erase sid g.entering })
                    waits alive keyed
                    (IsAlive-apart g.sockets g.joining g.connected k.alive sid j h)
                    (ground (arith, lookup-erase sid sid g.joining)))))

  -- A leave's row is disconnected, or that failed and it stays.
  pub write_leave-IsConsistent :
      (fails : Bool) (now pid : ℕ) → IsConsistent (write_leave fails now pid g)
  unfolding write_leave
  write_leave-IsConsistent fails now pid =
      option-split IsConsistent (find_leaving pid g.leaving) (λ _. k)
        (λ info h.
          let l = pending g.leaving g.stranded g.entering in
          let (found, removed) =
            find_leaving-append pid info g.leaving (g.stranded ++ values g.entering) h in
          let (p, r, done, booked) =
            left-IsBooked g.participants g.connected l k.booked now pid info found in
          let left : (q : Participant) (r' : ParticipantRepository)
              → set_disconnected pid now g.participants ≡ some (q, r')
              → IsBooked r' g.connected
                  (pending (remove_leaving pid g.leaving) g.stranded g.entering) =
            λ q r' e.
              subst
                (λ x.
                  IsBooked x g.connected
                    (pending (remove_leaving pid g.leaving) g.stranded g.entering))
                (ground (arith, done, e)) (subst (λ x. IsBooked r g.connected x) removed booked) in
          option-split IsConsistent (set_disconnected pid now g.participants)
            (λ n. absurd (ground (arith, n, done)))
            (λ x e.
              if-split IsConsistent fails
                (λ _. record {
                  booked =
                      IsMoved-IsBooked g.participants g.connected _ _
                        (remove-IsMoved g.leaving g.stranded g.entering info pid h) k.booked;
                  alive = k.alive;
                  entering_keyed = k.entering_keyed;
                })
                (λ _. record {
                  booked = left x.0 x.1 e;
                  alive = k.alive;
                  entering_keyed = k.entering_keyed;
                })))

  -- The others are told of a leave, or that failed.
  pub finish_leave-IsConsistent :
      (fails : Bool) (n pid : ℕ) → IsConsistent (finish_leave fails n pid g)
  unfolding finish_leave
  finish_leave-IsConsistent fails n pid =
      let told : (ps us : List ConnectedParticipant)
          → IsConsistent (record g { parting = ps; unseen = us }) =
        λ ps us. record { booked = k.booked; alive = k.alive; entering_keyed = k.entering_keyed } in
      option-split IsConsistent (find_leaving pid g.parting) (λ _. k)
        (λ info h.
          if-split IsConsistent fails (λ _. told (remove_leaving pid g.parting) (info ∷ g.unseen))
            (λ _.
              IsConsistent-same (record g { parting = remove_leaving pid g.parting }) _
                (books-announce_leave info n (record g { parting = remove_leaving pid g.parting }))
                (told (remove_leaving pid g.parting) g.unseen)))
