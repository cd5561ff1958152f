-- ===== src/Web/RoomSocket/Calls.antt =====
-- The calls that the client makes over its socket and that wait for an ack: `sendText`, `closeRoom`
-- and `rename` of apps/web/src/features/room/hooks/useRoomSocket.ts. Each is finished by its ack or by
-- its timer, whichever comes first.
pub mod Sent
use synxor.Common.{
  arith, ℕ, ◌≡◌, refl, Bool, true, false, if◌then◌else◌, Option, none, some, List, [], ◌∷◌, Text,
  text_eq, Dict, insert, codes, Result, ok, err,
}
use synxor.Participant.Identity.{ParticipantIdentity}
use synxor.Room.Gateway.Handlers.{SentText}
use synxor.Web.RoomSocket.{RoomText, RoomSocketState, append_text}

-- What the server answers: a value, or why it refuses.
abbrev pub Ack : Type 0 → Type 0
Ack A = Result Text A

-- A promise with its flag `settled`: what it resolved to, or that it waits.
pub record Call (A : Type 0) : Type 0 where
  pub settled : Bool
  pub answer : Option (Ack A)

abbrev pub pending : {A : Type 0} → Call A
pending = record { settled = false; answer = none }

-- A call without a live socket is answered at once.
abbrev pub begin : {A : Type 0} → Bool → Call A
begin true = pending
begin false = record { settled = true; answer = some (err (codes "No connection")) }

module _ {A : Type 0} (effect : Ack A → RoomSocketState → RoomSocketState) where
  -- `finish`, with what the call does to the state when it is answered.
  unfoldable pub finish : Ack A → Call A × RoomSocketState → Call A × RoomSocketState
  finish ack (c, s) =
      if c.settled then (c, s) else (record { settled = true; answer = some ack }, effect ack s)

  -- The ack comes, or `none` where the timer goes off or the ack is empty.
  unfoldable pub arrive : Option (Ack A) → Call A × RoomSocketState → Call A × RoomSocketState
  unfolding finish
  arrive none x = finish (err (codes "No response")) x
  arrive (some ack) x = finish ack x

  unfoldable pub arrive_all :
      List (Option (Ack A)) → Call A × RoomSocketState → Call A × RoomSocketState
  unfolding arrive
  arrive_all [] x = x
  arrive_all (a ∷ acks) x = arrive_all acks (arrive a x)

  arrive_all-settled :
      (acks : List (Option (Ack A))) (c : Call A) (s : RoomSocketState)
      → c.settled ≡ true
      → arrive_all acks (c, s) ≡ (c, s)
  unfolding arrive_all arrive finish
  arrive_all-settled [] c s h = refl
  arrive_all-settled (none ∷ acks) c s h = ground (arith, h, arrive_all-settled acks c s h)
  arrive_all-settled (some a ∷ acks) c s h = ground (arith, h, arrive_all-settled acks c s h)

  -- A call that waits is answered by the first that comes, its ack or its timer, and is answered with
  -- just that; whatever comes later changes neither the answer nor the state. A call without a live
  -- socket has its answer and changes nothing.
  pub arrive_all-first :
      (a : Option (Ack A)) (acks : List (Option (Ack A))) (s : RoomSocketState)
      → let first : Ack A = elim a [ none ↦ err (codes "No response") | some ack ↦ ack ] in
        (arrive_all (a ∷ acks) (begin true, s)
          ≡ (record { settled = true; answer = some first }, effect first s))
        × (arrive_all (a ∷ acks) (begin false, s) ≡ (begin false, s))
  unfolding arrive_all arrive finish
  arrive_all-first none acks s =
      (arrive_all-settled acks _ _ refl, arrive_all-settled acks (begin false) s refl)
  arrive_all-first (some ack) acks s =
      (arrive_all-settled acks _ _ refl, arrive_all-settled acks (begin false) s refl)

-- `{ ...ack, author: null, mine: true }`
abbrev pub own_row : SentText → RoomText
own_row row = record {
  transfer_id = row.transfer_id;
  payload_type = row.payload_type;
  content = row.content;
  author = none;
  mine = true;
}

unfoldable pub on_sent : Ack SentText → RoomSocketState → RoomSocketState
unfolding append_text
on_sent (err e) s = s
on_sent (ok row) s = append_text (own_row row) s

unfoldable pub on_renamed : Ack ParticipantIdentity → RoomSocketState → RoomSocketState
on_renamed (err e) s = s
on_renamed (ok i) s = record s { self = some i; identities = insert i.key i s.identities }

unfoldable pub on_room_closed : Ack (Unit {0}) → RoomSocketState → RoomSocketState
on_room_closed ack s = s
