-- ===== src/Tests/Gateway.antt =====
-- Sockets that open, join, speak, close and go.
use synxor.Common.{
  ℕ, ◌+◌, ◌≡◌, refl, true, false, ◌||◌, if◌then◌else◌, any, count, Option, none, some, [], ◌∷◌,
  Text, codes, text_eq, nat_eq, values, lookup, length, ok,
}
use synxor.Participant.Entity.{Participant, sender, receiver}
use synxor.Participant.Identity.{ParticipantIdentity, derive_identity}
use synxor.Participant.Repository.{count_connected, create, set_disconnected, mark_all_disconnected}
use synxor.Room.Gateway.{
  ConnectedParticipant, Gateway, Joining, handle_connection, write_join, finish_join, drop_socket,
  write_leave, find_leaving, remove_leaving, shows, roster_for, by_key, is_present, entry,
  on_recorded, on_participant_left, announce_join, emit, authenticate,
}
use synxor.Room.Gateway.Handlers.{
  Platform, SentText, handle_send_text, send_valid, handle_close_room, close_as_sender,
}
use synxor.Room.Gateway.Handlers.Laws.{IsClosed, evicts, handle_close_room-evicts}
use synxor.Room.Gateway.Roster.{has_name, roster_for-count}
use synxor.Room.Gateway.Rows.{is_at}
use synxor.Room.Gateway.Steps.{
  start, Reach, here, next, opens, drops, join_writes, join_ends, leave_writes, last_roster,
}
use synxor.Room.Gateway.Steps.Counted.{Reach-count}
use synxor.Room.Gateway.Steps.Rosters.{Reach-roster}
use synxor.Room.Service.{close}
use synxor.Transfer.Entity.{text_snippet}
use synxor.Transfer.Http.{TokenClaims, receiver_role, to_participant_role}
use synxor.Transfer.Repository.{list_storage_keys_by_room_id, create_text_transfer}
use synxor.Room.Repository.{update_status}
use synxor.Transfer.Text.{classify_text_payload, send_text_schema}
use synxor.Web.RoomSocket.{Hook, initial_state}
use synxor.Web.RoomSocket.Calls.Sent.{IsSent, handle_send_text-same}
use synxor.Tests.Data.{world, works}

abbrev verify_any : Text → Option TokenClaims
verify_any t = some (record { room_id = 7; role = receiver_role })

abbrev hash : Text → Text
hash t = t

abbrev fresh : Gateway
fresh = start 1000 world

abbrev one_open : Gateway
one_open = handle_connection verify_any hash 1 (some (codes "a")) fresh

abbrev two_open : Gateway
two_open = handle_connection verify_any hash 2 (some (codes "b")) one_open

abbrev one_written : Gateway
one_written = write_join false none 1001 1 two_open

abbrev one_joined : Gateway
one_joined = finish_join false 1 1 one_written

-- The second join waits with its row.
abbrev two_written : Gateway
two_written = write_join false none 1002 2 one_joined

abbrev two_joined : Gateway
two_joined = finish_join false 2 2 two_written

abbrev one_left : Gateway
one_left = drop_socket 2 two_joined

-- The database refuses to disconnect the row.
abbrev one_stranded : Gateway
one_stranded = write_leave true 1003 2 one_left

fresh-none : lookup 1 fresh.sockets ≡ none
unfolding start
fresh-none = refl

one_open-none : lookup 2 one_open.sockets ≡ none
unfolding start handle_connection authenticate
one_open-none = refl

Reach-two_open : Reach fresh two_open
Reach-two_open =
    next (next here (opens verify_any hash 1 (some (codes "a")) fresh fresh-none))
      (opens verify_any hash 2 (some (codes "b")) one_open one_open-none)

Reach-one_joined : Reach fresh one_joined
Reach-one_joined =
    next (next Reach-two_open (join_writes false none 1001 1 two_open))
      (join_ends false 1 1 one_written)

Reach-two_written : Reach fresh two_written
Reach-two_written = next Reach-one_joined (join_writes false none 1002 2 one_joined)

Reach-one_left : Reach fresh one_left
Reach-one_left =
    next (next Reach-two_written (join_ends false 2 2 two_written)) (drops 2 two_joined)

Reach-one_stranded : Reach fresh one_stranded
Reach-one_stranded = next Reach-one_left (leave_writes true 1003 2 one_left)

-- The failed leave has left its row behind.
stranded_one : count (is_at 7 receiver) one_stranded.stranded ≡ 1
unfolding start handle_connection authenticate write_join finish_join on_recorded announce_join emit
    to_participant_role create mark_all_disconnected drop_socket on_participant_left write_leave
    set_disconnected find_leaving remove_leaving
stranded_one = refl

Reach-count_example :
    count_connected 7 (some receiver) one_stranded.participants
    ≡ count (is_at 7 receiver) (values one_stranded.connected)
      + count (is_at 7 receiver) one_stranded.leaving
      + count (is_at 7 receiver) (values one_stranded.entering)
      + count (is_at 7 receiver) one_stranded.stranded
Reach-count_example = Reach-count 1000 world tt tt one_stranded Reach-one_stranded 7 receiver

abbrev waiting : Joining
waiting = record { claims = record { room_id = 7; role = receiver_role }; token_hash = codes "a" }

abbrev first : ConnectedParticipant
first = entry waiting none 1

-- The key of the second Participant, who went without anyone being told.
abbrev second_key : Text
second_key = (derive_identity (codes "b") none).key

second_unseen :
    (is_present 7 second_key one_stranded ≡ false)
    × (any (has_name second_key) (last_roster 7 [] one_stranded.emitted) ≡ true)
unfolding start handle_connection authenticate write_join finish_join on_recorded announce_join emit
    to_participant_role create mark_all_disconnected drop_socket on_participant_left write_leave
    set_disconnected find_leaving remove_leaving is_present last_roster roster_for by_key
    derive_identity
second_unseen = (refl, refl)

Reach-roster_example :
    let listed = any (has_name second_key) (last_roster 7 [] one_stranded.emitted) in
    (is_present 7 second_key one_stranded ≡ true → listed ≡ true)
    × (listed ≡ true
        → is_present 7 second_key one_stranded ≡ false
        → (any (shows 7 second_key) one_stranded.leaving
            || any (shows 7 second_key) one_stranded.parting
            || any (shows 7 second_key) one_stranded.unseen)
          ≡ true)
Reach-roster_example = Reach-roster 1000 world one_stranded tt tt Reach-one_stranded 7 second_key

-- Two tabs of one person, and the Sender.
abbrev person : Text → ParticipantIdentity
person key = record { key = key; color_key = codes "red"; name = codes "Red Fox" }

abbrev tab : ℕ → ConnectedParticipant
tab id = record {
  participant_id = id;
  room_id = 7;
  role = receiver;
  token_hash = codes "a";
  identity = person (codes "k");
}

abbrev host : ConnectedParticipant
host = record {
  participant_id = 3;
  room_id = 7;
  role = sender;
  token_hash = codes "h";
  identity = person (codes "h");
}

abbrev busy : Gateway
busy = record {
  world = world;
  connected = (1, tab 1) ∷ (2, tab 2) ∷ (3, host) ∷ [];
  sockets = (1, true) ∷ (2, true) ∷ (3, true) ∷ [];
  joining = [];
  entering = [];
  leaving = [];
  parting = [];
  stranded = [];
  unseen = [];
}

roster_for-count_example :
    count (has_name (codes "k")) (roster_for 7 busy)
    ≡ (if is_present 7 (codes "k") busy then 1 else 0)
roster_for-count_example = roster_for-count 7 (codes "k") busy

busy-closes : (handle_close_room works 3 busy).0 ≡ ok tt
unfolding handle_close_room close_as_sender close list_storage_keys_by_room_id update_status
busy-closes = refl

handle_close_room-evicts_example :
    let g' = (handle_close_room works 3 busy).1 in
    (info : ConnectedParticipant) × (lookup 3 busy.connected ≡ some info)
    × (info.role ≡ sender)
    × IsClosed busy.world info.room_id g'.world
    × (let evicted = evicts info.room_id 3 1 (lookup 1 busy.connected) in
        (lookup 1 g'.connected ≡ (if evicted then none else lookup 1 busy.connected))
        × (lookup 1 g'.sockets ≡ (if evicted then some false else lookup 1 busy.sockets)))
handle_close_room-evicts_example =
    handle_close_room-evicts works 3 1 busy (refl, (refl, (refl, tt))) busy-closes

abbrev plain : Platform
plain = record { protocol_of = λ t. none; byte_length = length }

abbrev sent : SentText
sent = record { transfer_id = 1; payload_type = text_snippet; content = codes "hi" }

busy-sends : (handle_send_text plain false 1000 1 (some (codes "hi")) busy).0 ≡ ok sent
unfolding handle_send_text send_valid classify_text_payload send_text_schema create_text_transfer
busy-sends = refl

abbrev quiet_hook : Hook
quiet_hook = record { state = initial_state; typing_timers = [] }

handle_send_text-same_example :
    IsSent 1 busy
      (handle_send_text plain false 1000 1 (some (codes "hi")) busy).1
      sent
      initial_state
      quiet_hook
handle_send_text-same_example =
    handle_send_text-same plain 1000 1 (some (codes "hi")) busy sent initial_state quiet_hook
      busy-sends refl refl
