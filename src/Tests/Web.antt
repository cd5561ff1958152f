-- ===== src/Tests/Web.antt =====
-- The web client: its Room, its queue and uploads, its session, its notices; and Room Tokens.
use synxor.Common.{
  ℕ, ◌+◌, ◌<◌, ◌≡◌, refl, true, false, if◌then◌else◌, none, some, List, [], ◌∷◌, ◌++◌, Text, codes,
  text_eq, has_key, IsPrefix, ok, err, arith,
}
use synxor.Participant.Identity.{ParticipantIdentity}
use synxor.Room.Gateway.Handlers.{SentText}
use synxor.Room.Router.{
  shown_error, join_procedure, admits, signs, network, rejected, join_procedure-shown,
}
use synxor.Transfer.Entity.{text_snippet}
use synxor.Web.ComposingSignal.{Composer, notify, type_all, has_signal, type_all-lit}
use synxor.Web.FileQueue.{
  File, Queue, QueuedFile, index_of, file_key, queued, add_files, reorder_files,
}
use synxor.Web.FileQueue.Kept.{IsQueued, AllIn, add_files-IsQueued}
use synxor.Web.FileQueue.Reorder.{IsReordered, reorder_files-IsReordered}
use synxor.Web.FileUploads.{uploaded, other_error, Uploads}
use synxor.Web.FileUploads.Lane.{IsUnique, ids, rounds, rounds-all}
use synxor.Web.Notices.{NoticeEvent, changes, times_out, run, empty}
use synxor.Web.Notices.Shown.{news, notice, stuck, run-news}
use synxor.Web.RoomSocket.{
  RoomSocketState, Hook, TextPayload, initial_state, PresenceChange, Change,
  typing_safety_timeout_ms, receive, receive_all, Incoming, text, delivered, typing_state,
  room_closed, timers,
}
use synxor.Web.RoomSocket as Socket
use synxor.Web.RoomSocket.Calls.{begin, arrive_all, on_sent, arrive_all-first}
use synxor.Web.RoomSocket.Grows.{IsLater, receive_all-IsLater}
use synxor.Web.RoomSocket.Stream.{IsOnce, receive_all-IsOnce}
use synxor.Web.RoomSocket.Typing.{receive_all-quiet}
use synxor.Tests.Data.{code, rooms, signer}

abbrev hook : Hook
hook = record { state = initial_state; typing_timers = [] }

abbrev hello : TextPayload
hello = record {
  transfer_id = 4;
  payload_type = text_snippet;
  content = codes "hello";
  author = none;
}

abbrev fox : ParticipantIdentity
fox = record { key = codes "k"; color_key = codes "red"; name = codes "Red Fox" }

-- A text and a delivery that come twice, a peer that starts to type, and the end of the Room.
abbrev events : List (ℕ × Incoming)
events =
    (1, text (some hello))
    ∷ (2, text (some hello))
    ∷ (3, delivered (some 9))
    ∷ (4, delivered (some 9))
    ∷ (5, typing_state (some (fox, true)))
    ∷ (6, room_closed)
    ∷ []

receive_all-IsOnce_example : IsOnce (receive_all events hook).state
receive_all-IsOnce_example = receive_all-IsOnce events hook (tt, tt, tt)

receive_all-IsLater_example : IsLater hook.state (receive_all events hook).state
receive_all-IsLater_example = receive_all-IsLater events hook

receive_all-quiet_example :
    has_key (codes "k") (receive 6006 timers (receive_all events hook)).typing ≡ false
receive_all-quiet_example =
    receive_all-quiet 0 6 6006 events hook (codes "k") refl refl (ground arith) (omega arith)

abbrev row : SentText
row = record { transfer_id = 4; payload_type = text_snippet; content = codes "hello" }

arrive_all-first_example :
    (arrive_all on_sent (none ∷ some (ok row) ∷ []) (begin true, initial_state)
      ≡ (record { settled = true; answer = some (err (codes "No response")) }, initial_state))
    × (arrive_all on_sent (none ∷ some (ok row) ∷ []) (begin false, initial_state)
        ≡ (begin false, initial_state))
unfolding on_sent
arrive_all-first_example = arrive_all-first on_sent none (some (ok row) ∷ []) initial_state

abbrev decimal : ℕ → Text
decimal n = n ∷ []

abbrev a_file : File
a_file = record { name = codes "a.txt"; size = 3; last_modified = 1 }

abbrev b_file : File
b_file = record { name = codes "b.txt"; size = 0; last_modified = 2 }

abbrev empty_queue : Queue
empty_queue = record { files = []; notice = none }

add_files-IsQueued_example :
    let q' = add_files decimal (a_file ∷ a_file ∷ b_file ∷ []) empty_queue in
    IsQueued decimal q'.files
    × IsPrefix [] q'.files
    × AllIn decimal q'.files (a_file ∷ a_file ∷ b_file ∷ [])
add_files-IsQueued_example =
    add_files-IsQueued decimal (a_file ∷ a_file ∷ b_file ∷ []) empty_queue tt

abbrev two_files : List QueuedFile
two_files = queued (file_key decimal a_file) a_file ∷ queued (file_key decimal b_file) b_file ∷ []

abbrev two_queue : Queue
two_queue = record { files = two_files; notice = none }

two_files-IsQueued : IsQueued decimal two_files
unfolding file_key
two_files-IsQueued = ((refl, omega arith, refl), refl, ((refl, omega arith, refl), refl, tt))

two_files-index :
    (index_of (file_key decimal b_file) two_files ≡ some 1)
    × (index_of (file_key decimal a_file) two_files ≡ some 0)
unfolding file_key
two_files-index = (refl, refl)

reorder_files-IsReordered_example :
    let q' = reorder_files (file_key decimal b_file) (file_key decimal a_file) two_queue in
    IsReordered decimal (file_key decimal b_file) (file_key decimal a_file) two_files q'.files
    × (q'.notice ≡ two_queue.notice)
    × (file_key decimal b_file ≡ file_key decimal a_file → q' ≡ two_queue)
reorder_files-IsReordered_example =
    reorder_files-IsReordered decimal (file_key decimal b_file) (file_key decimal a_file) 1 0
      two_queue two_files-IsQueued two_files-index.0 two_files-index.1

abbrev idle_lane : Uploads
idle_lane = record { states = []; active = none; started = []; calls = [] }

two_files-IsUnique : IsUnique two_files
unfolding file_key
two_files-IsUnique = (refl, (refl, tt))

rounds-all_example :
    let u' = rounds (other_error ∷ uploaded 5 ∷ []) two_files idle_lane in
    (u'.active ≡ none) × (u'.calls ≡ ids two_files)
rounds-all_example =
    rounds-all (other_error ∷ uploaded 5 ∷ []) two_files idle_lane two_files-IsUnique refl refl refl
      refl

abbrev join_of : ℕ → PresenceChange
join_of n = record { seq = n; type = Socket.join; identity = fox }

abbrev notices : List NoticeEvent
notices =
    changes none none
    ∷ changes (some (join_of 1)) none
    ∷ changes (some (join_of 2)) none
    ∷ times_out
    ∷ changes (some (join_of 2)) none
    ∷ []

run-news_example :
    let f = (run notices (notice none empty)).feed in
    (f.shown ++ f.queue ≡ news none notices) × (stuck f ≡ 0)
run-news_example = run-news notices

abbrev composer : Composer
composer = record { active = false; last_emit = 0; idle_timer = none; signals = [] }

type_all-lit_example :
    let d = type_all (2000 ∷ 4000 ∷ []) (notify 0 composer) in
    (d.active ≡ true)
    × (has_signal d.last_emit d.signals ≡ true)
    × (6000 < d.last_emit + typing_safety_timeout_ms)
type_all-lit_example =
    type_all-lit 0 4000 6000 (2000 ∷ 4000 ∷ []) composer refl (ground arith) (omega arith)
      (omega arith)

join_procedure-shown_example : shown_error (join_procedure signer 1000 code rooms) ≡ (
    if admits 1000 code rooms
    then (if signs signer code rooms then none else some network)
    else some rejected)
join_procedure-shown_example = join_procedure-shown signer 1000 code rooms
