-- ===== src/Room/Log.antt =====
-- `listTransfers` of apps/api/src/room/room.service.ts: the Room's Log of persisted Transfers. The
-- map that is built from a list of rows keeps the last row of a key.
pub mod Laws
use synxor.Common.{
  ℕ, Bool, true, false, ◌&&◌, ◌==◌, if◌then◌else◌, has, any, find, map, Option, none, some, List,
  [], ◌∷◌, Text, Dict, lookup, insert, Result, ok, err, nat_eq,
}
use synxor.Participant.Entity.{ParticipantRole, sender, Participant}
use synxor.Participant.Identity.{derive_identity}
use synxor.Participant.Repository.{ParticipantRepository, role_beq, find_by_ids, find_by_room_id}
use synxor.Room.Entity.{Room, RoomError, room_not_found}
use synxor.Room.Events.{TransferAuthor}
use synxor.Room.Repository.{find_by_code}
use synxor.Room.World.{World}
use synxor.Transfer.Delivery.{DeliveryRepository, Delivery, find_by_transfer_ids}
use synxor.Transfer.Entity.{
  Transfer, PayloadType, file, text_snippet, link, FilePayload, TextPayload,
}
use synxor.Transfer.Repository as Transfers

pub record RoomTransfer : Type 0 where
  pub id : ℕ
  pub payload_type : PayloadType
  pub file_name : Option Text
  pub file_size_bytes : Option ℕ
  pub content : Option Text
  pub author : Option TransferAuthor
  pub delivered : Bool
  pub created_at : ℕ

abbrev pub is_file : PayloadType → Bool
is_file file = true
is_file text_snippet = false
is_file link = false

-- `new Map(rows.map((row) => [key(row), row]))`
pub index_by {ℓ} : {A : Type ℓ} → (A → ℕ) → List A → Dict ℕ A → Dict ℕ A
index_by key [] d = d
index_by key (x ∷ xs) d = index_by key xs (insert (key x) x d)

-- The authors' ids that are there; a repeated one changes no lookup.
pub author_ids : List Transfer → List ℕ
author_ids [] = []
author_ids (t ∷ ts) =
    let rest = author_ids ts in elim (t.author_participant_id) [ none ↦ rest | some id ↦ id ∷ rest ]

abbrev is_unauthored : Transfer → Bool
is_unauthored t = elim (t.author_participant_id) [ none ↦ is_file t.payload_type | some id ↦ false ]

abbrev author_of : Participant → TransferAuthor
author_of p = record {
  role = p.role;
  identity = some (derive_identity p.token_hash p.display_name);
}

-- The Room's Sender, looked for only when a file has no author.
pub sender_author : List Transfer → List Participant → Option TransferAuthor
sender_author ts people =
    if any is_unauthored ts
    then elim (find (λ p. role_beq p.role sender) people) [
      | none ↦ none
      | some p ↦
          some (record {
            role = sender;
            identity = some (derive_identity p.token_hash p.display_name);
          })
    ]
    else none

pub resolved_author : Dict ℕ Participant → Option TransferAuthor → Transfer → Option TransferAuthor
resolved_author authors from_sender t =
    let fallback = if is_file t.payload_type then from_sender else none in
    elim (t.author_participant_id) [
      | none ↦ fallback
      | some id ↦ elim (lookup id authors) [ none ↦ fallback | some p ↦ some (author_of p) ]
    ]

-- One row of the Log.
unfoldable pub row_of :
    Dict ℕ FilePayload
    → Dict ℕ TextPayload
    → List ℕ
    → Dict ℕ Participant
    → Option TransferAuthor
    → Transfer
    → RoomTransfer
unfolding resolved_author
row_of files texts delivered authors from_sender t = record {
  id = t.id;
  payload_type = t.payload_type;
  file_name = elim (lookup t.id files) [ none ↦ none | some p ↦ some p.file_name ];
  file_size_bytes = elim (lookup t.id files) [ none ↦ none | some p ↦ some p.file_size_bytes ];
  content = elim (lookup t.id texts) [ none ↦ none | some p ↦ some p.content ];
  author = resolved_author authors from_sender t;
  delivered = has t.id delivered;
  created_at = t.created_at;
}

-- The Log of these Transfers.
unfoldable pub log_of : List Transfer → ℕ → World → List RoomTransfer
unfolding row_of index_by sender_author author_ids
log_of ts room_id w =
    let ids = map (λ t. t.id) ts in
    map
      (row_of
        (index_by (λ p. p.transfer_id)
          (Transfers.find_file_payloads_by_transfer_ids ids w.transfers) [])
        (index_by (λ p. p.transfer_id)
          (Transfers.find_text_payloads_by_transfer_ids ids w.transfers) [])
        (map (λ d. d.transfer_id) (find_by_transfer_ids ids w.deliveries))
        (index_by (λ p. p.id) (find_by_ids (author_ids ts) w.participants) [])
        (sender_author ts (find_by_room_id room_id w.participants)))
      ts

unfoldable pub list_transfers : Text → World → Result RoomError (List RoomTransfer)
unfolding log_of
list_transfers room_code w = elim (find_by_code room_code w.rooms) [
  | none ↦ err (room_not_found room_code)
  | some room ↦ ok (log_of (Transfers.find_by_room_id room.id w.transfers) room.id w)
]
