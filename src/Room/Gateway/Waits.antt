-- ===== src/Room/Gateway/Waits.antt =====
-- The waits of apps/api/src/room/room.gateway.ts against the calls of
-- apps/api/src/room/room-presence.service.ts, when no other step comes between.
use synxor.Common.{
  ℕ, ◌≡◌, false, none, some, [], ◌∷◌, Dict, lookup, insert, erase, lookup-insert, nat_eq, arith,
}
use synxor.Participant.Repository.{create, find_display_name}
use synxor.Room.Gateway.{
  ConnectedParticipant, Gateway, Joining, entry, join_input, write_join, finish_join, on_recorded,
  with_participants,
}
use synxor.Room.Presence.{RecordJoinInput, record_join}
use synxor.Transfer.Http.{to_participant_role}

erase-insert_fresh :
    (k : ℕ) (v : ConnectedParticipant) (d : Dict ℕ ConnectedParticipant)
    → lookup k d ≡ none
    → erase k (insert k v d) ≡ d
erase-insert_fresh k v [] h = ground arith
erase-insert_fresh k v ((j, w) ∷ d) h = ground (arith, erase-insert_fresh k v d)

-- What the gateway asks `recordJoin` for.
abbrev recorded : Joining → RecordJoinInput
recorded j = record {
  room_id = j.claims.room_id;
  role = to_participant_role j.claims.role;
  token_hash = j.token_hash;
}

-- With the name that was found and the count that was made at once, a join's waits are `recordJoin`.
pub finish_join-write_join :
    (now sid : ℕ) (j : Joining) (g : Gateway)
    → lookup sid g.joining ≡ some j
    → lookup sid g.entering ≡ none
    → let name = find_display_name j.claims.room_id j.token_hash g.participants in
      let (result, r) = record_join now (recorded j) g.participants in
      let e = entry j name result.participant_id in
      (e.identity ≡ result.identity)
      × (finish_join false result.receiver_count sid (write_join false name now sid g)
          ≡ on_recorded sid e result.receiver_count
              (record (with_participants r g) { joining = erase sid g.joining }))
unfolding finish_join write_join record_join
finish_join-write_join now sid j g joins free =
    let name = find_display_name j.claims.room_id j.token_hash g.participants in
    let e = entry j name (create now (join_input j name) g.participants).0.id in
    ground (
      arith,
      joins,
      free,
      lookup-insert sid sid e g.entering,
      erase-insert_fresh sid e g.entering free,
    )
