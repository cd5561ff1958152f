-- ===== src/Room/Gateway/Rows/Booked.antt =====
-- apps/api/src/room/room.gateway.ts: the Participants' rows when a Participant joins, drops, has left
-- or is renamed.
use synxor.Common.{
  ℕ, ◌≡◌, refl, sym, ◌==◌, if◌then◌else◌, Option, none, some, List, [], ◌∷◌, Text, Dict, values,
  lookup, insert, erase, lookup-insert, IsKeyed, insert-IsKeyed, erase-IsKeyed, nat_eq, count,
  count-insert_fresh, count-insert_over, count-erase, All-insert, All-erase, All-lookup, All-mono,
  arith,
}
use synxor.Participant.Entity.{ParticipantRole, Participant, CreateParticipantInput}
use synxor.Participant.Repository.{
  ParticipantRepository, participant_of, create, is_identity, count_connected, set_disconnected,
  rename_rows, set_display_name,
}
use synxor.Room.Gateway.{ConnectedParticipant, is_of, find_leaving, remove_leaving}
use synxor.Room.Gateway.Handlers.{set_identity}
use synxor.Room.Presence.Renames.{Fits}
use synxor.Participant.Identity.{ParticipantIdentity}
use synxor.Room.Gateway.Rows.{
  lookup-Fits, Fits-insert, Fits-update, id-lookup, row_at, count-remove_leaving,
  find_leaving-is_of, All-find_leaving, All-remove_leaving, holders, connected_row, is_at, Agrees,
  IsBooked,
}

-- A row after a rename.
abbrev renamed : ℕ → Text → Option Text → Participant → Participant
renamed room hash name p = if is_identity room hash p then record p { display_name = name } else p

module _ (room : ℕ) (hash : Text) (name : Option Text) where
  lookup-rename_rows :
      (k : ℕ) (d : Dict ℕ Participant)
      → lookup k (rename_rows room hash name d)
        ≡ (elim (lookup k d) [ none ↦ none | some p ↦ some (renamed room hash name p) ])
  unfolding rename_rows
  lookup-rename_rows k [] = refl
  lookup-rename_rows k ((j, p) ∷ d) = ground (arith, lookup-rename_rows k d)

  Fits-rename_rows :
      (n : ℕ) (d : Dict ℕ Participant) → Fits n d → Fits n (rename_rows room hash name d)
  unfolding rename_rows
  Fits-rename_rows n [] h = tt
  Fits-rename_rows n ((j, p) ∷ d) h = ground (arith, Fits-rename_rows n d h.2)

  IsKeyed-rename_rows :
      (d : Dict ℕ Participant) → IsKeyed d → IsKeyed (rename_rows room hash name d)
  unfolding rename_rows
  IsKeyed-rename_rows [] h = tt
  IsKeyed-rename_rows ((j, p) ∷ d) h =
      ground (arith, IsKeyed-rename_rows d h.1, lookup-rename_rows j d)

  count-rename_rows :
      (room' : ℕ) (role : ParticipantRole) (d : Dict ℕ Participant)
      → count (row_at room' role) (values (rename_rows room hash name d))
        ≡ count (row_at room' role) (values d)
  unfolding rename_rows
  count-rename_rows room' role [] = refl
  count-rename_rows room' role ((j, p) ∷ d) = ground (arith, count-rename_rows room' role d)

module _ (r : ParticipantRepository) (c : Dict ℕ ConnectedParticipant)
    (l : List ConnectedParticipant) (b : IsBooked r c l) where
  -- A join writes a new row, for a connection that is to come.
  pub write-IsBooked :
      (now : ℕ) (input : CreateParticipantInput) (e : ConnectedParticipant)
      → e.participant_id ≡ r.next_id
      → e.room_id ≡ input.room_id
      → e.role ≡ input.role
      → IsBooked (create now input r).1 c (e ∷ l)
  unfolding create count_connected holders connected_row
  write-IsBooked now input e id room role =
      let p = participant_of now r.next_id input in
      let new : lookup r.next_id r.stored ≡ none =
        lookup-Fits r.next_id r.next_id r.stored b.fits (omega arith) in
      let r' = (create now input r).1 in
      let kept : (x : ConnectedParticipant) → Agrees r x → Agrees r' x = λ x a. record {
        row = a.row;
        found = ground (arith, a.found, new, lookup-insert p.id x.participant_id p r.stored);
        same_room = a.same_room;
        same_role = a.same_role;
      } in
      let mine : Agrees r' e = record {
        row = p;
        found = ground (arith, id, lookup-insert p.id e.participant_id p r.stored);
        same_room = sym room;
        same_role = sym role;
      } in
      record {
        fits = Fits-insert r.next_id p r.stored b.fits refl;
        rows_keyed = insert-IsKeyed p.id p r.stored b.rows_keyed;
        entries_keyed = b.entries_keyed;
        synced = λ pid. ground (arith, b.synced pid, new, id, lookup-insert p.id pid p r.stored);
        agreed = All-mono (Agrees r) (Agrees r') (values c) kept b.agreed;
        agreed_leaving = (mine, All-mono (Agrees r) (Agrees r') l kept b.agreed_leaving);
        counted = λ room' role'. ground (
          arith,
          b.counted room' role',
          room,
          role,
          count-insert_fresh (row_at room' role') p.id p r.stored new,
        );
      }

  -- A socket that goes has its connection wait for the leave.
  pub drop-IsBooked :
      (sid : ℕ) (e : ConnectedParticipant)
      → lookup sid c ≡ some e
      → IsBooked r (erase sid c) (e ∷ l)
  unfolding holders
  drop-IsBooked sid e found = record {
    fits = b.fits;
    rows_keyed = b.rows_keyed;
    entries_keyed = erase-IsKeyed sid c b.entries_keyed;
    synced =
        λ pid. ground (arith, b.synced pid, count-erase (is_of pid) sid e c b.entries_keyed found);
    agreed = All-erase (Agrees r) sid c b.agreed;
    agreed_leaving = (All-lookup (Agrees r) sid e c b.agreed found, b.agreed_leaving);
    counted = λ room role.
        ground
          (arith, b.counted room role, count-erase (is_at room role) sid e c b.entries_keyed found);
  }

  -- A leave that is recorded: the row was there and connected, and now it is not.
  pub left-IsBooked :
      (now pid : ℕ) (e : ConnectedParticipant)
      → find_leaving pid l ≡ some e
      → (p : Participant) × (r' : ParticipantRepository) × (set_disconnected pid now r
          ≡ some (p, r'))
        × IsBooked r' c (remove_leaving pid l)
  unfolding holders connected_row set_disconnected count_connected
  left-IsBooked now pid e found =
      let a = All-find_leaving (Agrees r) pid e l found b.agreed_leaving in
      let own = find_leaving-is_of pid e l found in
      let row : lookup pid r.stored ≡ some a.row = ground (arith, a.found, own) in
      let p = record (a.row) { disconnected_at = some now } in
      let r' = record r { stored = insert pid p r.stored } in
      let mine = id-lookup r.next_id pid a.row r.stored b.fits row in
      let was : connected_row pid r ≡ 1 =
        ground (arith, row, own, b.synced pid, count-remove_leaving (is_of pid) pid e l found) in
      let kept : (x : ConnectedParticipant) → Agrees r x → Agrees r' x = λ x h. record {
        row = if x.participant_id == pid then p else h.row;
        found = ground (arith, row, h.found, lookup-insert pid x.participant_id p r.stored);
        same_room = ground (arith, row, h.found, h.same_room);
        same_role = ground (arith, row, h.found, h.same_role);
      } in
      (
        p,
        r',
        ground (arith, row),
        record {
          fits = Fits-update r.next_id pid p r.stored b.fits mine.0 mine.1;
          rows_keyed = insert-IsKeyed pid p r.stored b.rows_keyed;
          entries_keyed = b.entries_keyed;
          synced = λ k. ground (
            arith,
            row,
            own,
            b.synced k,
            lookup-insert pid k p r.stored,
            count-remove_leaving (is_of k) pid e l found,
            was,
          );
          agreed = All-mono (Agrees r) (Agrees r') (values c) kept b.agreed;
          agreed_leaving =
              All-remove_leaving (Agrees r') pid l
                (All-mono (Agrees r) (Agrees r') l kept b.agreed_leaving);
          counted = λ room role. ground (
            arith,
            row,
            was,
            a.same_room,
            a.same_role,
            b.counted room role,
            count-insert_over (row_at room role) pid p a.row r.stored row,
            count-remove_leaving (is_at room role) pid e l found,
          );
        },
      )

  -- A rename changes names only.
  pub rename-IsBooked :
      (sid : ℕ) (e : ConnectedParticipant) (i : ParticipantIdentity) (room : ℕ) (hash : Text)
      (name : Option Text)
      → lookup sid c ≡ some e
      → IsBooked (set_display_name room hash name r) (insert sid (set_identity i e) c) l
  unfolding holders connected_row set_display_name count_connected
  rename-IsBooked sid e i room hash name found =
      let e' = set_identity i e in
      let r' = set_display_name room hash name r in
      let kept : (x : ConnectedParticipant) → Agrees r x → Agrees r' x = λ x h. record {
        row = renamed room hash name h.row;
        found =
            ground (arith, h.found, lookup-rename_rows room hash name x.participant_id r.stored);
        same_room = ground (arith, h.same_room);
        same_role = ground (arith, h.same_role);
      } in
      let mine : Agrees r' e = kept e (All-lookup (Agrees r) sid e c b.agreed found) in
      record {
        fits = Fits-rename_rows room hash name r.next_id r.stored b.fits;
        rows_keyed = IsKeyed-rename_rows room hash name r.stored b.rows_keyed;
        entries_keyed = insert-IsKeyed sid e' c b.entries_keyed;
        synced = λ pid. ground (
          arith,
          b.synced pid,
          count-insert_over (is_of pid) sid e' e c found,
          lookup-rename_rows room hash name pid r.stored,
        );
        agreed =
            All-insert (Agrees r') sid e' c
              (All-mono (Agrees r) (Agrees r') (values c) kept b.agreed)
              (record {
                row = mine.row;
                found = mine.found;
                same_room = mine.same_room;
                same_role = mine.same_role;
              });
        agreed_leaving = All-mono (Agrees r) (Agrees r') l kept b.agreed_leaving;
        counted = λ room' role. ground (
          arith,
          b.counted room' role,
          count-insert_over (is_at room' role) sid e' e c found,
          count-rename_rows room hash name room' role r.stored,
        );
      }
