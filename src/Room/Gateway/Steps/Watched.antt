-- ===== src/Room/Gateway/Steps/Watched.antt =====
-- The roster that clients saw last, from one step to the next of
-- apps/api/src/room/room.gateway.ts.
use synxor.Common.{
  ℕ, ◌≡◌, refl, sym, ap, ◌∙◌, subst, Bool, false, not, Option, none, List, [], ◌∷◌, ◌++◌, any, All,
  Text, Dict, values, lookup, insert, erase, nat_eq, IsKeyed, All-insert, All-lookup, if-split,
  option-split, arith, All-erase, insert-IsKeyed,
}
use synxor.Participant.Identity.{ParticipantIdentity}
use synxor.Participant.Repository.{ParticipantRepository, create, set_disconnected}
use synxor.Room.Events.{Audience, Event}
use synxor.Room.Gateway.{
  announce_join, authenticate, handle_connection, is_live, on_participant_left, on_recorded,
  ConnectedParticipant, Joining, Gateway, emit, is_present, drop_socket, join_input, entry,
  write_join, finish_join, write_leave, finish_leave, find_leaving, remove_leaving,
  with_participants,
}
use synxor.Room.Gateway.Kept.{IsConsistent, books-announce_leave, books-announce_join}
use synxor.Room.Gateway.Sockets.{IsAlive-apart}
use synxor.Room.Gateway.Steps.{last_roster, roster_to}
use synxor.Room.Gateway.Steps.Shown.{gone, IsShown, last_roster-emit}
use synxor.Room.Gateway.Steps.ShownKept.{
  IsShown-same, on_participant_left-IsShown, announce_join-IsShown, IsNamed, announce_leave-IsShown,
  IsSameView, derive_identity-key, any-remove_leaving, any-gone,
}
use synxor.Room.Presence.{JoinResult}
use synxor.Transfer.Http.{TokenClaims}

-- The roster is in step, and the identities of connections and of joins with a row are those of their
-- Room Tokens.
pub record IsWatched (g : Gateway) : Type 0 where
  pub shown : IsShown g
  pub named : All IsNamed (values g.connected)
  pub named_entering : All IsNamed (values g.entering)

pub IsWatched-same : (g h : Gateway) → IsSameView g h → IsWatched g → IsWatched h
IsWatched-same g h v w = record {
  shown = IsShown-same g h v w.shown;
  named = subst (λ c. All IsNamed (values c)) v.same_connected w.named;
  named_entering = subst (λ c. All IsNamed (values c)) v.same_entering w.named_entering;
}

pub on_participant_left-IsWatched :
    (sid : ℕ) (g : Gateway)
    → IsKeyed g.connected
    → IsWatched g
    → IsWatched (on_participant_left sid g)
unfolding on_participant_left
on_participant_left-IsWatched sid g keyed w = record {
  shown = on_participant_left-IsShown sid g keyed w.shown;
  named =
      option-split (λ (h : Gateway). All IsNamed (values h.connected)) (lookup sid g.connected)
        (λ _. w.named) (λ _ _. All-erase IsNamed sid g.connected w.named);
  named_entering =
      option-split (λ (h : Gateway). All IsNamed (values h.entering)) (lookup sid g.connected)
        (λ _. w.named_entering) (λ _ _. w.named_entering);
}

pub drop_socket-IsWatched :
    (sid : ℕ) (g : Gateway) → IsKeyed g.connected → IsWatched g → IsWatched (drop_socket sid g)
unfolding drop_socket
drop_socket-IsWatched sid g keyed w =
    on_participant_left-IsWatched sid (record g { sockets = insert sid false g.sockets }) keyed
      (IsWatched-same g _
        (record {
          same_connected = refl;
          same_entering = refl;
          same_gone = λ _. refl;
          same_roster = λ _. refl;
        })
        w)

pub handle_connection-IsWatched :
    (verify : Text → Option TokenClaims) (hash : Text → Text) (sid : ℕ) (token : Option Text)
    (g : Gateway)
    → IsWatched g
    → IsWatched (handle_connection verify hash sid token g)
unfolding handle_connection
handle_connection-IsWatched verify hash sid token g w =
    let same : IsSameView g (handle_connection verify hash sid token g) =
      option-split (IsSameView g) (authenticate verify token)
        (λ _. record {
          same_connected = refl;
          same_entering = refl;
          same_gone = λ _. refl;
          same_roster = λ _. refl;
        })
        (λ _ _. record {
          same_connected = refl;
          same_entering = refl;
          same_gone = λ _. refl;
          same_roster = λ _. refl;
        }) in
    IsWatched-same g _ same w

-- A Participant that is recorded: `g` is the state without the waits of its join.
pub on_recorded-IsWatched :
    (sid n : ℕ) (e : ConnectedParticipant) (g : Gateway)
    → lookup sid g.connected ≡ none
    → IsKeyed g.connected
    → IsNamed e
    → IsWatched g
    → IsWatched (on_recorded sid e n g)
unfolding on_recorded
on_recorded-IsWatched sid n e g free keyed own w =
    let g₁ = record g { connected = insert sid e g.connected } in
    let first = not (is_present e.room_id e.identity.key g) in
    let result : JoinResult = record {
      participant_id = e.participant_id;
      receiver_count = n;
      identity = e.identity;
    } in
    let same = ap (λ b. b.1) (books-announce_join sid e.room_id e.role first result g₁) in
    let announced : IsWatched (announce_join sid e.room_id e.role first result g₁) = record {
      shown = announce_join-IsShown sid e.room_id e.role first result e g free refl w.shown;
      named =
          subst (λ c. All IsNamed (values c)) same
            (All-insert IsNamed sid e g.connected w.named own);
      named_entering =
          subst (λ c. All IsNamed (values c))
            (ap (λ b. b.5) (books-announce_join sid e.room_id e.role first result g₁))
            w.named_entering;
    } in
    if-split IsWatched (is_live sid g) (λ _. announced)
      (λ _.
        on_participant_left-IsWatched sid _
          (subst IsKeyed same (insert-IsKeyed sid e g.connected keyed)) announced)

-- Something is emitted that is no roster, and the connections and the leaves that wait stay.
pub IsWatched-emit :
    (g h : Gateway) (to : Audience) (event : Event)
    → h.connected ≡ g.connected
    → h.entering ≡ g.entering
    → gone h ≡ gone g
    → h.emitted ≡ g.emitted
    → ((room : ℕ) (acc : List ParticipantIdentity) → roster_to room to event acc ≡ acc)
    → IsWatched g
    → IsWatched (emit to event h)
unfolding emit
IsWatched-emit g h to event c n l e quiet w =
    IsWatched-same g _
      (record {
        same_connected = sym c;
        same_entering = sym n;
        same_gone = λ q. ap (any q) (sym l);
        same_roster = λ room.
            ap (last_roster room []) (sym e)
            ∙ sym (last_roster-emit room to event h ∙ quiet room (last_roster room [] h.emitted));
      })
      w

module _ (g : Gateway) (k : IsConsistent g) (w : IsWatched g) where
  -- The waits of the joins change, and the rows.
  quiet-IsWatched :
      (r : ParticipantRepository) (j : Dict ℕ Joining) (d : Dict ℕ ConnectedParticipant)
      (l : List ConnectedParticipant)
      → All IsNamed (values d)
      → IsWatched (record (with_participants r g) { joining = j; entering = d; stranded = l })
  unfolding is_present
  quiet-IsWatched r j d l own = record { shown = w.shown; named = w.named; named_entering = own }

  pub write_join-IsWatched :
      (fails : Bool) (name : Option Text) (now sid : ℕ)
      → IsWatched (write_join fails name now sid g)
  unfolding write_join
  write_join-IsWatched fails name now sid =
      option-split IsWatched (lookup sid g.joining) (λ _. w)
        (λ j h.
          option-split IsWatched (lookup sid g.entering)
            (λ free.
              if-split IsWatched fails
                (λ _. drop_socket-IsWatched sid _ k.booked.entries_keyed (
                  quiet-IsWatched g.participants (erase sid g.joining) g.entering g.stranded
                    w.named_entering))
                (λ _.
                  let made = create now (join_input j name) g.participants in
                  let e = entry j name made.0.id in
                  quiet-IsWatched made.1 g.joining (insert sid e g.entering) g.stranded (
                    All-insert IsNamed sid e g.entering w.named_entering
                      (derive_identity-key j.token_hash name none))))
            (λ _ _. w))

  pub finish_join-IsWatched : (fails : Bool) (n sid : ℕ) → IsWatched (finish_join fails n sid g)
  unfolding finish_join
  finish_join-IsWatched fails n sid =
      option-split IsWatched (lookup sid g.joining) (λ _. w)
        (λ j h.
          option-split IsWatched (lookup sid g.entering) (λ _. w)
            (λ e found.
              let rest = All-erase IsNamed sid g.entering w.named_entering in
              if-split IsWatched fails
                (λ _. drop_socket-IsWatched sid _ k.booked.entries_keyed (
                  quiet-IsWatched g.participants (erase sid g.joining) (erase sid g.entering)
                    (e ∷ g.stranded) rest))
                (λ _.
                  on_recorded-IsWatched sid n e
                    (record g { joining = erase sid g.joining; entering = erase sid g.entering })
                    (IsAlive-apart g.sockets g.joining g.connected k.alive sid j h)
                    k.booked.entries_keyed
                    (All-lookup IsNamed sid e g.entering w.named_entering found)
                    (quiet-IsWatched g.participants (erase sid g.joining) (erase sid g.entering)
                      g.stranded rest))))

  -- A leave that waits goes on, or has failed: whoever went is still among those who went.
  moved-IsWatched :
      (r : ParticipantRepository) (l p s u : List ConnectedParticipant)
      → ((q : ConnectedParticipant → Bool) → any q (gone g) ≡ any q (l ++ (p ++ u)))
      → IsWatched
          (record (with_participants r g) { leaving = l; parting = p; stranded = s; unseen = u })
  moved-IsWatched r l p s u same =
      IsWatched-same g _
        (record {
          same_connected = refl;
          same_entering = refl;
          same_gone = same;
          same_roster = λ _. refl;
        })
        w

  pub write_leave-IsWatched : (fails : Bool) (now pid : ℕ) → IsWatched (write_leave fails now pid g)
  unfolding write_leave
  write_leave-IsWatched fails now pid =
      option-split IsWatched (find_leaving pid g.leaving) (λ _. w)
        (λ info h.
          let rest = remove_leaving pid g.leaving in
          let unseen : (q : ConnectedParticipant → Bool)
              → any q (gone g) ≡ any q (rest ++ (g.parting ++ info ∷ g.unseen)) =
            λ q. ground (
              arith,
              any-remove_leaving q pid info g.leaving h,
              any-gone q g.leaving g.parting g.unseen,
              any-gone q rest g.parting (info ∷ g.unseen),
            ) in
          let parting : (q : ConnectedParticipant → Bool)
              → any q (gone g) ≡ any q (rest ++ (info ∷ g.parting ++ g.unseen)) =
            λ q. ground (
              arith,
              any-remove_leaving q pid info g.leaving h,
              any-gone q g.leaving g.parting g.unseen,
              any-gone q rest (info ∷ g.parting) g.unseen,
            ) in
          option-split IsWatched (set_disconnected pid now g.participants)
            (λ _. moved-IsWatched g.participants rest g.parting g.stranded (info ∷ g.unseen) unseen)
            (λ x _.
              if-split IsWatched fails
                (λ _.
                  moved-IsWatched g.participants rest g.parting (info ∷ g.stranded)
                    (info ∷ g.unseen) unseen)
                (λ _. moved-IsWatched x.1 rest (info ∷ g.parting) g.stranded g.unseen parting)))

  pub finish_leave-IsWatched : (fails : Bool) (n pid : ℕ) → IsWatched (finish_leave fails n pid g)
  unfolding finish_leave
  finish_leave-IsWatched fails n pid =
      option-split IsWatched (find_leaving pid g.parting) (λ _. w)
        (λ info h.
          let rest = remove_leaving pid g.parting in
          if-split IsWatched fails
            (λ _. moved-IsWatched g.participants g.leaving rest g.stranded (info ∷ g.unseen) (λ q.
              ground (
                arith,
                any-remove_leaving q pid info g.parting h,
                any-gone q g.leaving g.parting g.unseen,
                any-gone q g.leaving rest (info ∷ g.unseen),
              )))
            (λ _.
              let told = books-announce_leave info n (record g { parting = rest }) in
              record {
                shown = announce_leave-IsShown pid n info g h w.shown;
                named = subst (λ c. All IsNamed (values c)) (ap (λ b. b.1) told) w.named;
                named_entering =
                    subst (λ c. All IsNamed (values c)) (ap (λ b. b.5) told) w.named_entering;
              }))
