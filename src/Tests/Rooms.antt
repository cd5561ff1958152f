-- ===== src/Tests/Rooms.antt =====
-- Rooms that are created, joined, closed and swept.
use synxor.Common.{
  ◌∷◌, [], List, nat_eq, ℕ, zero, suc, ◌+◌, ◌<◌, ◌≡◌, ◌≢◌, ◌⊎◌, refl, true, false, if◌then◌else◌,
  none, some, [], Text, codes, ok, err, arith,
}
use synxor.Room.Entity.{
  one_hour, expiry_duration_ms, room_closed, signing_failure, room_code_exhaustion, storage_failure,
}
use synxor.Room.Repository.{RoomRepository, create, find_by_id, find_by_code}
use synxor.Room.Service.{
  Signer, room_code_max_attempts, create_room_with_unique_code, CreateRoomResult, create_room, join,
  remove_all, purge_room_contents, close,
}
use synxor.Room.Code.Entry.{all, IsRoomCode}
use synxor.Room.Service.Creating.{IsWellFormed, create_room_fails, join-create_room}
use synxor.Room.Service.Purging.{has_key, is_file_of, close_lem, close_retry}
use synxor.Room.Service.InFlight.{HasFileKeys, upload_survives_close}
use synxor.Storage.Key.{file_object_key}
use synxor.Storage.Objects.{get_object}
use synxor.Sweeper.{reap_session}
use synxor.Transfer.Repository.{find_by_room_id, storage_keys_of, list_storage_keys_by_room_id}
use synxor.Transfer.Http.{sender_role}
use synxor.Transfer.Sessions.{get}
use synxor.Transfer.Sessions.Received.{marked}
use synxor.Transfer.Upload.Accept.{accept_chunk}
use synxor.Transfer.Upload.Complete.{Receives, answer}
use synxor.Tests.Data.{
  three_bytes, calm, upload, chunk_input, code, room, rooms, two_transfers, world, works, broken,
  signer,
}
use synxor.Tests.Uploads.{
  calm-IsQuiet, three_bytes-IsTotal, first_chunk-Carries, two_transfers-IsConsistent,
}

-- The generator draws the taken code first, and then another one.
abbrev draws : ℕ → Text
draws zero = code
draws (suc n) = codes "222222"

abbrev always_taken : ℕ → Text
always_taken n = code

rooms-IsWellFormed : IsWellFormed rooms
rooms-IsWellFormed = record { fits = (refl, omega arith, tt) }

abbrev mute : Signer
mute room_id role expires_at = none

create_room_fails_example :
    ((create_room draws mute false 100 one_hour rooms).1.stored ≡ rooms.stored)
    × (((signing_failure ≡ room_code_exhaustion room_code_max_attempts)
          × ((j : ℕ) → j < room_code_max_attempts → find_by_code (draws j) rooms ≢ none))
        ⊎ ((signing_failure ≡ signing_failure)
            × ((free : Text) × (find_by_code free rooms ≡ none))
            × (mute rooms.next_id sender_role (100 + expiry_duration_ms one_hour) ≡ none)))
unfolding create_room create_room_with_unique_code create
create_room_fails_example =
    create_room_fails draws mute 100 one_hour rooms signing_failure rooms-IsWellFormed refl

-- The Room that is created beside the other one, and its answer.
abbrev made : CreateRoomResult
made = record {
  room_code = codes "222222";
  room_token = codes "token";
  expires_at = 100 + expiry_duration_ms one_hour;
}

abbrev after_creation : RoomRepository
after_creation = (create_room draws signer false 100 one_hour rooms).1

join-create_room_example :
    join signer 200 (codes "222222") after_creation
    ≡ ok (record { room_token = codes "token"; room_id = 8 })
unfolding create_room create_room_with_unique_code create
join-create_room_example =
    join-create_room draws signer 100 one_hour rooms made after_creation 200 (codes "token") refl
      (omega arith) refl

world-found : find_by_id 7 world.rooms ≡ some room
unfolding find_by_id
world-found = refl

close_lem_example :
    let (r, w') = close works 7 world in
    (r ≡ ok tt)
    × (get_object (file_object_key 7 5) 0 w'.objects ≡ (
        if is_file_of 7 (file_object_key 7 5) two_transfers
        then none
        else get_object (file_object_key 7 5) 0 world.objects))
    × (find_by_room_id 7 w'.transfers ≡ [])
    × (join signer 200 code w'.rooms ≡ err (room_closed code))
close_lem_example =
    close_lem works 7 world (λ k. refl) two_transfers-IsConsistent room world-found
      (file_object_key 7 5) signer 200

purge-fails : (purge_room_contents broken 7 world).0 ≡ err storage_failure
unfolding purge_room_contents list_storage_keys_by_room_id storage_keys_of
purge-fails = refl

other-file : has_key (file_object_key 8 6) (list_storage_keys_by_room_id 7 two_transfers) ≡ false
unfolding list_storage_keys_by_room_id storage_keys_of
other-file = refl

close_retry_example :
    let (r, w') = close works 7 (close broken 7 world).1 in
    (r ≡ ok tt)
    × (get_object (file_object_key 7 5) 0 w'.objects ≡ (
        if is_file_of 7 (file_object_key 7 5) two_transfers
        then none
        else get_object (file_object_key 7 5) 0 world.objects))
    × (find_by_room_id 7 w'.transfers ≡ [])
    × (join signer 200 code w'.rooms ≡ err (room_closed code))
close_retry_example =
    close_retry broken works 7 world room storage_failure (file_object_key 7 5) signer 200
      purge-fails (λ k. refl) two_transfers-IsConsistent world-found

world-Receives : Receives three_bytes 5 upload world.api
unfolding get
world-Receives = record {
  found = refl;
  own = refl;
  sized = refl;
  total = three_bytes-IsTotal;
  distinct = tt;
  below = tt;
  stored = λ i h. absurd (ground arith);
}

two_transfers-HasFileKeys : HasFileKeys two_transfers
two_transfers-HasFileKeys id p h = ground arith

upload_survives_close_example :
    let w' = (close works 7 world).1 in
    let (r, s) = accept_chunk calm 100 (chunk_input (some 5) 0 three_bytes) w'.api in
    (r ≡ ok (answer (marked 0 upload) true))
    × (get_object (file_object_key 7 5) 0 s.objects ≡ some three_bytes)
    × (find_by_room_id 7 w'.transfers ≡ [])
upload_survives_close_example =
    upload_survives_close works world room three_bytes 5 0 upload (λ k. refl)
      two_transfers-IsConsistent two_transfers-HasFileKeys world-found world-Receives signer calm
      100 (chunk_input (some 5) 0 three_bytes) calm-IsQuiet first_chunk-Carries refl

reap-fails : (reap_session broken upload world).0 ≡ err storage_failure
unfolding reap_session remove_all
reap-fails = refl

-- The byte 255 is rejected, and the bytes after the sixth usable one are not looked at.
abbrev random_bytes : List ℕ
random_bytes = 0 ∷ 255 ∷ 35 ∷ 36 ∷ 26 ∷ 1 ∷ 2 ∷ 3 ∷ []

code-IsRoomCode : IsRoomCode code
unfolding all
code-IsRoomCode = record { six = refl; symbols = refl }
