-- ===== src/Web/RoomSocket.antt =====
-- apps/web/src/features/room/hooks/useRoomSocket.ts: what the client knows of its Room, event by
-- event. A payload is `none` where the hook finds no identifier in it; the clock is an argument, in
-- milliseconds.
pub mod Calls
pub mod Grows
pub mod Stream
pub mod Typing
use synxor.Common.{
  ℕ, ◌+◌, Bool, true, false, leb, not, ◌==◌, if◌then◌else◌, any, filter, add, Option, none, some,
  List, [], ◌∷◌, ◌++◌, Text, text_beq, text_eq, Dict, insert, erase, lookup, nat_eq,
}
use synxor.Participant.Identity.{ParticipantIdentity}
use synxor.Room.Events.{TransferAuthor, TransferProgressPayload, TransferTextPayload}
use synxor.Transfer.Entity.{PayloadType}

-- `author` is `none` in this client's own sends.
pub record RoomText : Type 0 where
  pub transfer_id : ℕ
  pub payload_type : PayloadType
  pub content : Text
  pub author : Option TransferAuthor
  pub mine : Bool

pub data RoomSocketStatus : Type 0 where
  idle connecting connected disconnected lost : RoomSocketStatus

pub data Change : Type 0 where
  join leave : Change

pub record PresenceChange : Type 0 where
  pub seq : ℕ
  pub type : Change
  pub identity : ParticipantIdentity

pub record RoomSocketState : Type 0 where
  pub status : RoomSocketStatus
  pub receiver_count : ℕ
  pub roster : List ParticipantIdentity
  pub presence_change : Option PresenceChange
  pub transfers : List TransferProgressPayload
  pub texts : List RoomText
  pub delivered : List ℕ
  pub closed : Bool
  pub self : Option ParticipantIdentity
  pub identities : Dict Text ParticipantIdentity
  pub typing : Dict Text ParticipantIdentity

-- The state, and when the safety timer of each composing peer goes off.
pub record Hook : Type 0 where
  pub state : RoomSocketState
  pub open state use *
  pub typing_timers : Dict Text ℕ

abbrev pub initial_state : RoomSocketState
initial_state = record {
  status = idle;
  receiver_count = 0;
  roster = [];
  presence_change = none;
  transfers = [];
  texts = [];
  delivered = [];
  closed = false;
  self = none;
  identities = [];
  typing = [];
}

abbrev pub typing_safety_timeout_ms : ℕ
typing_safety_timeout_ms = 6000

-- What `Number` makes of the count on the wire; a positive number is given by its whole part.
pub data WireNumber : Type 0 where
  not_finite at_most_zero : WireNumber
  positive : ℕ → WireNumber

-- An identity on the wire is `none` where it has no text as its key.
pub record RosterPayload : Type 0 where
  pub roster : List (Option ParticipantIdentity)
  pub joined : Option (Option ParticipantIdentity)
  pub left : Option (Option ParticipantIdentity)

pub record TextPayload : Type 0 where
  pub transfer_id : ℕ
  pub payload_type : PayloadType
  pub content : Text
  pub author : Option TransferAuthor

unfoldable pub on_count : WireNumber → RoomSocketState → RoomSocketState
on_count (positive n) s = record s { receiver_count = n }
on_count not_finite s = record s { receiver_count = 0 }
on_count at_most_zero s = record s { receiver_count = 0 }

abbrev pub well_formed : List (Option ParticipantIdentity) → List ParticipantIdentity
well_formed [] = []
well_formed (none ∷ ps) = well_formed ps
well_formed (some p ∷ ps) = p ∷ well_formed ps

abbrev pub seq_of : Option PresenceChange → ℕ
seq_of none = 0
seq_of (some c) = c.seq

-- `payload.joined ?? payload.left`, and its type
abbrev pub changed : RosterPayload → Option (Change × ParticipantIdentity)
changed p = elim (p.joined) [
  | some (some i) ↦ some (join, i)
  | some none ↦ none
  | none ↦ elim (p.left) [ some (some i) ↦ some (leave, i) | some none ↦ none | none ↦ none ]
]

unfoldable pub on_roster : Option RosterPayload → RoomSocketState → RoomSocketState
on_roster none s = s
on_roster (some p) s = record s {
  roster = well_formed p.roster;
  presence_change = elim (changed p) [
    | none ↦ s.presence_change
    | some (type, i) ↦
        some (record { seq = seq_of s.presence_change + 1; type = type; identity = i })
  ];
}

-- The entry of this Transfer is replaced, or a new one is appended.
unfoldable pub upsert :
    TransferProgressPayload → List TransferProgressPayload → List TransferProgressPayload
upsert p [] = p ∷ []
upsert p (t ∷ ts) =
    let rest = upsert p ts in if t.transfer_id == p.transfer_id then p ∷ ts else t ∷ rest

unfoldable pub on_progress : Option TransferProgressPayload → RoomSocketState → RoomSocketState
unfolding upsert
on_progress none s = s
on_progress (some p) s = record s { transfers = upsert p s.transfers }

-- A text is appended once.
unfoldable pub append_text : RoomText → RoomSocketState → RoomSocketState
append_text t s =
    if any (λ x. x.transfer_id == t.transfer_id) s.texts
    then s
    else record s { texts = s.texts ++ t ∷ [] }

unfoldable pub drop_typing : Text → Hook → Hook
drop_typing key h = record h {
  typing_timers = erase key h.typing_timers;
  state = record (h.state) { typing = erase key h.typing };
}

abbrev pub author_key : Option TransferAuthor → Option Text
author_key none = none
author_key (some a) = elim (a.identity) [ none ↦ none | some i ↦ some i.key ]

-- `{ ...payload, mine: false }`
abbrev pub incoming : TextPayload → RoomText
incoming p = record {
  transfer_id = p.transfer_id;
  payload_type = p.payload_type;
  content = p.content;
  author = p.author;
  mine = false;
}

unfoldable pub on_text : Option TextPayload → Hook → Hook
unfolding append_text drop_typing
on_text none h = h
on_text (some p) h =
    let h₁ : Hook = elim (author_key p.author) [ none ↦ h | some key ↦ drop_typing key h ] in
    record h₁ { state = append_text (incoming p) h₁.state }

unfoldable pub on_delivered : Option ℕ → RoomSocketState → RoomSocketState
on_delivered none s = s
on_delivered (some id) s = record s { delivered = add id s.delivered }

unfoldable pub on_identity_self : Option ParticipantIdentity → RoomSocketState → RoomSocketState
on_identity_self none s = s
on_identity_self (some i) s = record s { self = some i }

unfoldable pub on_identity : Option ParticipantIdentity → RoomSocketState → RoomSocketState
on_identity none s = s
on_identity (some i) s = record s {
  identities = insert i.key i s.identities;
  self = elim (s.self) [ none ↦ none | some me ↦ some (if text_beq me.key i.key then i else me) ];
}

-- `typing: true` arms the timer again, and `typing: false` is the stop.
unfoldable pub on_typing_state : ℕ → Option (ParticipantIdentity × Bool) → Hook → Hook
unfolding drop_typing
on_typing_state now none h = h
on_typing_state now (some (i, false)) h = drop_typing i.key h
on_typing_state now (some (i, true)) h = record h {
  typing_timers = insert i.key (now + typing_safety_timeout_ms) h.typing_timers;
  state = record (h.state) { typing = insert i.key i h.typing };
}

-- The timers that go off by `now`.
abbrev pub due : ℕ → Dict Text ℕ → List Text
due now [] = []
due now ((key, at) ∷ d) = let rest = due now d in if leb at now then key ∷ rest else rest

abbrev pub drop_all_typing : List Text → Hook → Hook
drop_all_typing [] h = h
drop_all_typing (key ∷ keys) h = drop_all_typing keys (drop_typing key h)

unfoldable pub on_timers : ℕ → Hook → Hook
unfolding drop_typing
on_timers now h = drop_all_typing (due now h.typing_timers) h

-- What reaches the hook from its socket, and the clock that lets timers go off.
pub data Incoming : Type 0 where
  connect disconnect connect_error reconnect_failed room_closed : Incoming
  count : WireNumber → Incoming
  roster : Option RosterPayload → Incoming
  progress : Option TransferProgressPayload → Incoming
  text : Option TextPayload → Incoming
  delivered : Option ℕ → Incoming
  identity_self : Option ParticipantIdentity → Incoming
  identity : Option ParticipantIdentity → Incoming
  typing_state : Option (ParticipantIdentity × Bool) → Incoming
  timers : Incoming

abbrev pub with_state : Hook → RoomSocketState → Hook
with_state h s = record h { state = s }

unfoldable pub receive : ℕ → Incoming → Hook → Hook
unfolding on_count on_roster on_progress on_text on_delivered on_identity_self on_identity
    on_typing_state on_timers
receive now connect h = with_state h (record (h.state) { status = connected })
receive now disconnect h = with_state h (record (h.state) { status = disconnected })
receive now connect_error h = with_state h (record (h.state) { status = disconnected })
receive now reconnect_failed h = with_state h (record (h.state) { status = lost })
receive now room_closed h = with_state h (record (h.state) { closed = true })
receive now (count n) h = with_state h (on_count n h.state)
receive now (roster p) h = with_state h (on_roster p h.state)
receive now (progress p) h = with_state h (on_progress p h.state)
receive now (text p) h = on_text p h
receive now (delivered p) h = with_state h (on_delivered p h.state)
receive now (identity_self p) h = with_state h (on_identity_self p h.state)
receive now (identity p) h = with_state h (on_identity p h.state)
receive now (typing_state p) h = on_typing_state now p h
receive now timers h = on_timers now h

-- The events of a while, each with its time.
unfoldable pub receive_all : List (ℕ × Incoming) → Hook → Hook
unfolding receive
receive_all [] h = h
receive_all ((now, e) ∷ es) h = receive_all es (receive now e h)

-- The effect for a token, and its cleanup before another.
unfoldable pub subscribe : Option Text → Hook
subscribe none = record { state = initial_state; typing_timers = [] }
subscribe (some []) = record { state = initial_state; typing_timers = [] }
subscribe (some (c ∷ cs)) = record {
  state = record initial_state { status = connecting };
  typing_timers = [];
}
