-- ===== src/Room/Gateway/Handlers.antt =====
-- The messages that a Participant sends over its socket: text, a rename, typing, and closing the
-- Room. A body is `none` where the schema finds no text or no Boolean in it; the failures of the
-- database and of storage are arguments.
pub mod Laws
use synxor.Common.{
  ℕ, ◌*◌, Bool, true, false, leb, not, ◌&&◌, ◌==◌, if◌then◌else◌, Option, none, some, List, [], ◌∷◌,
  Text, length, Dict, lookup, insert, nat_eq, Result, ok, err,
}
use synxor.Participant.Entity.{sender}
use synxor.Participant.Identity.{ParticipantIdentity, max_display_name_chars}
use synxor.Participant.Repository.{role_beq}
use synxor.Room.Events.{everyone, others, text, identity, typing_state, closed}
use synxor.Room.Gateway.{Gateway, ConnectedParticipant, emit, with_participants, drop_socket}
use synxor.Room.Presence.{rename}
use synxor.Room.Service.{close}
use synxor.Storage.Key.{ObjectKey}
use synxor.Transfer.Entity.{PayloadType, CreateTextTransferInput}
use synxor.Transfer.Repository.{create_text_transfer}
use synxor.Transfer.Text.{ClassifiedText, classify_text_payload, send_text_schema}

-- The reasons that an ack gives.
pub data Refusal : Type 0 where
  not_joined invalid_body not_sender could_not : Refusal

pub record SentText : Type 0 where
  pub transfer_id : ℕ
  pub payload_type : PayloadType
  pub content : Text

-- What the platform has: its URL parser, and the number of bytes of a text in UTF-8.
pub record Platform : Type 0 where
  pub protocol_of : Text → Option Text
  pub byte_length : Text → ℕ

abbrev pub text_input : Platform → ConnectedParticipant → ClassifiedText → CreateTextTransferInput
text_input p info c = record {
  room_id = info.room_id;
  payload_type = c.payload_type;
  content = c.content;
  content_length = p.byte_length c.content;
  author_participant_id = info.participant_id;
}

unfoldable pub send_valid :
    Platform
    → Bool
    → ℕ
    → ℕ
    → ConnectedParticipant
    → Text
    → Gateway
    → Result Refusal SentText × Gateway
unfolding classify_text_payload
send_valid p fails now sid info body g =
    let c = classify_text_payload p.protocol_of body in
    let (transfer, transfers) = create_text_transfer now (text_input p info c) g.transfers in
    if fails then (err could_not, g) else (
      ok (record { transfer_id = transfer.id; payload_type = c.payload_type; content = c.content }),
      emit (others info.room_id sid)
          (text (record {
            transfer_id = transfer.id;
            payload_type = c.payload_type;
            content = c.content;
            author = record { role = info.role; identity = some info.identity };
          }))
          (record g {
            world = record (g.world) { api = record (g.world.api) { transfers = transfers } };
          }),
    )

unfoldable pub handle_send_text :
    Platform → Bool → ℕ → ℕ → Option Text → Gateway → Result Refusal SentText × Gateway
unfolding send_valid send_text_schema
handle_send_text p fails now sid body g = elim (lookup sid g.connected) [
  | none ↦ (err not_joined, g)
  | some info ↦ elim body [
    | none ↦ (err invalid_body, g)
    | some t ↦
        if send_text_schema t then send_valid p fails now sid info t g else (err invalid_body, g)
  ]
]

-- `renameSchema`
abbrev pub rename_schema : Text → Bool
rename_schema name = leb (length name) (max_display_name_chars * 10)

-- The mutation of the socket's own record.
abbrev pub set_identity : ParticipantIdentity → ConnectedParticipant → ConnectedParticipant
set_identity i info = record info { identity = i }

unfoldable pub handle_rename :
    Bool → ℕ → Option Text → Gateway → Result Refusal ParticipantIdentity × Gateway
unfolding rename emit
handle_rename fails sid body g = elim (lookup sid g.connected) [
  | none ↦ (err not_joined, g)
  | some info ↦ elim body [
    | none ↦ (err invalid_body, g)
    | some name ↦
        let (renamed, r) = rename info.room_id info.token_hash (some name) g.participants in
        if rename_schema name
        then if fails then (err could_not, g) else (
          ok renamed,
          emit (everyone info.room_id) (identity renamed) (record (with_participants r g) {
            connected = insert sid (set_identity renamed info) g.connected;
          }),
        )
        else (err invalid_body, g)
  ]
]

unfoldable pub handle_typing : ℕ → Option Bool → Gateway → Gateway
unfolding emit
handle_typing sid body g = elim (lookup sid g.connected) [
  | none ↦ g
  | some info ↦ elim body [
    | none ↦ g
    | some typing ↦ emit (others info.room_id sid) (typing_state info.identity typing) g
  ]
]

-- The Room's other sockets.
pub other_sockets : ℕ → ℕ → Dict ℕ ConnectedParticipant → List ℕ
other_sockets room sid [] = []
other_sockets room sid ((k, info) ∷ d) =
    let rest = other_sockets room sid d in
    if info.room_id == room && not (k == sid) then k ∷ rest else rest

unfoldable pub drop_all : List ℕ → Gateway → Gateway
unfolding drop_socket
drop_all [] g = g
drop_all (k ∷ ks) g = drop_all ks (drop_socket k g)

-- The Room is closed, the others are told, and then they are disconnected.
unfoldable pub close_as_sender :
    (ObjectKey → Bool) → ℕ → ConnectedParticipant → Gateway → Result Refusal (Unit {0}) × Gateway
unfolding close drop_all other_sockets emit
close_as_sender fails sid info g =
    let (closing, w) = close fails info.room_id g.world in
    elim closing [
      | err e ↦ (err could_not, record g { world = w })
      | ok _ ↦ (
        ok tt,
        drop_all (other_sockets info.room_id sid g.connected)
            (emit (others info.room_id sid) closed (record g { world = w })),
      )
    ]

unfoldable pub handle_close_room :
    (ObjectKey → Bool) → ℕ → Gateway → Result Refusal (Unit {0}) × Gateway
unfolding close_as_sender
handle_close_room fails sid g = elim (lookup sid g.connected) [
  | none ↦ (err not_sender, g)
  | some info ↦
      if role_beq info.role sender then close_as_sender fails sid info g else (err not_sender, g)
]
