-- ===== src/Room/Router.antt =====
-- apps/api/src/trpc/routers/room.router.ts over the Room service, with the schemas of
-- apps/api/src/room/dto, and what the web client makes of a failed join
-- (apps/web/src/features/room/utils/join-error.ts).
use synxor.Common.{
  ℕ, ◌≡◌, ◌≤◌, Bool, true, false, not, ◌&&◌, ◌==◌, if◌then◌else◌, Option, none, some, List, length,
  Text, Result, ok, err, arith,
}
use synxor.Room.Code.{generate, room_code_length}
use synxor.Room.Code.Entry.{all, is_code_char, usable, generate-IsRoomCode}
use synxor.Room.Entity.{
  closed, status_beq, is_expired, RoomError, room_not_found, room_expired, room_closed,
}
use synxor.Room.Log.{RoomTransfer, list_transfers}
use synxor.Room.Repository.{RoomRepository, find_by_code}
use synxor.Room.Service.{Signer, JoinRoomResult, join}
use synxor.Room.World.{World}
use synxor.Transfer.Http.{receiver_role}

pub data TrpcCode : Type 0 where
  not_found bad_request internal_server_error : TrpcCode

-- `z.string().regex(ROOM_CODE_PATTERN)`
unfoldable pub room_code_schema : Text → Bool
room_code_schema code = length code == room_code_length && all is_code_char code

-- What the `catch` of `join` makes of an error; another one is an internal error of the server.
abbrev pub join_code : RoomError → TrpcCode
join_code (room_not_found c) = not_found
join_code (room_expired c) = not_found
join_code (room_closed c) = not_found
join_code e = internal_server_error

unfoldable pub join_procedure : Signer → ℕ → Text → RoomRepository → Result TrpcCode JoinRoomResult
unfolding room_code_schema join
join_procedure sign now code rooms =
    if room_code_schema code
    then elim (join sign now code rooms) [ ok r ↦ ok r | err e ↦ err (join_code e) ]
    else err bad_request

abbrev pub transfers_code : RoomError → TrpcCode
transfers_code (room_not_found c) = not_found
transfers_code e = internal_server_error

unfoldable pub transfers_procedure : Text → World → Result TrpcCode (List RoomTransfer)
unfolding room_code_schema list_transfers
transfers_procedure code w =
    if room_code_schema code
    then elim (list_transfers code w) [ ok ts ↦ ok ts | err e ↦ err (transfers_code e) ]
    else err bad_request

pub data JoinError : Type 0 where
  network rejected : JoinError

-- `classifyJoinError`, of the code of a `TRPCClientError`; `none` where there is none.
abbrev pub classify_join_error : Option TrpcCode → JoinError
classify_join_error (some not_found) = rejected
classify_join_error (some bad_request) = rejected
classify_join_error (some internal_server_error) = network
classify_join_error none = network

-- What the client shows of the answer.
abbrev pub shown_error : Result TrpcCode JoinRoomResult → Option JoinError
shown_error (ok r) = none
shown_error (err e) = some (classify_join_error (some e))

-- Whether a Room can be joined by this code now: it is well formed, and there is a Room under it that
-- is neither closed nor expired.
abbrev pub admits : ℕ → Text → RoomRepository → Bool
admits now code rooms = room_code_schema code && elim (find_by_code code rooms) [
  | none ↦ false
  | some room ↦ not (status_beq room.status closed) && not (is_expired room now)
]

abbrev pub signs : Signer → Text → RoomRepository → Bool
signs sign code rooms = elim (find_by_code code rooms) [
  | none ↦ true
  | some room ↦ elim (sign room.id receiver_role room.expires_at) [ none ↦ false | some t ↦ true ]
]

-- The client asks to type the code again exactly where no Room can be joined by it; where one can, it
-- shows no error, or, if the server fails to sign the token, one that says to try again.
pub join_procedure-shown :
    (sign : Signer) (now : ℕ) (code : Text) (rooms : RoomRepository)
    → shown_error (join_procedure sign now code rooms) ≡ (
        if admits now code rooms
        then (if signs sign code rooms then none else some network)
        else some rejected)
unfolding join_procedure join is_expired
join_procedure-shown sign now code rooms = ground arith

-- Six bytes below the threshold, wherever they come, make a code that the schema takes.
pub room_code_schema-generate :
    (bytes : List ℕ)
    → room_code_length ≤ usable bytes
    → (code : Text) × (generate bytes ≡ some code) × (room_code_schema code ≡ true)
unfolding room_code_schema
room_code_schema-generate bytes h =
    let (code, e, well) = generate-IsRoomCode bytes h in
    (code, e, ground (arith, well.six, well.symbols))
