-- ===== src/Transfer/Repository.antt =====
-- The transfer repository as apps/api/src/domain/transfer/transfer.repository.fake.ts implements
-- the port of transfer.repository.ts: three maps and a counter from which ids are drawn. The time
-- is an argument.
pub mod Purge
use synxor.Common.{
  ℕ, ◌+◌, Bool, ◌==◌, if◌then◌else◌, Option, none, some, List, [], ◌∷◌, filter, has, Dict, values,
  lookup, insert, erase, nat_eq,
}
use synxor.Storage.Key.{ObjectKey}
use synxor.Transfer.Entity.{
  Transfer, FilePayload, TextPayload, CreateTransferInput, CreateFilePayloadInput,
  CreateTextPayloadInput, CreateTextTransferInput,
}

pub record TransferRepository : Type 0 where
  pub transfers : Dict ℕ Transfer
  pub file_payloads : Dict ℕ FilePayload
  pub text_payloads : Dict ℕ TextPayload
  pub seq : ℕ

abbrev pub empty_repository : TransferRepository
empty_repository = record { transfers = []; file_payloads = []; text_payloads = []; seq = 0 }

abbrev transfer_of : ℕ → ℕ → CreateTransferInput → Transfer
transfer_of now id input = record {
  id = id;
  room_id = input.room_id;
  payload_type = input.payload_type;
  content_length = input.content_length;
  author_participant_id = input.author_participant_id;
  created_at = now;
}

abbrev store_transfer : Transfer → TransferRepository → Transfer × TransferRepository
store_transfer t r = (t, record r { transfers = insert t.id t r.transfers })

unfoldable pub create : ℕ → CreateTransferInput → TransferRepository → Transfer × TransferRepository
create now input r = elim (input.id) [
  | some id ↦ store_transfer (transfer_of now id input) r
  | none ↦ store_transfer (transfer_of now (r.seq + 1) input) (record r { seq = r.seq + 1 })
]

unfoldable pub find_by_id : ℕ → TransferRepository → Option Transfer
find_by_id id r = lookup id r.transfers

unfoldable pub find_by_room_id : ℕ → TransferRepository → List Transfer
find_by_room_id room r = filter (λ t. t.room_id == room) (values r.transfers)

abbrev file_payload_of : ℕ → CreateFilePayloadInput → FilePayload
file_payload_of id input = record {
  id = id;
  transfer_id = input.transfer_id;
  file_name = input.file_name;
  file_size_bytes = input.file_size_bytes;
  mime_type = input.mime_type;
  storage_key = input.storage_key;
}

unfoldable pub create_file_payload :
    CreateFilePayloadInput → TransferRepository → FilePayload × TransferRepository
create_file_payload input r =
    let p = file_payload_of (r.seq + 1) input in
    (p, record r { seq = r.seq + 1; file_payloads = insert p.transfer_id p r.file_payloads })

unfoldable pub find_file_payload_by_transfer_id : ℕ → TransferRepository → Option FilePayload
find_file_payload_by_transfer_id id r = lookup id r.file_payloads

unfoldable pub find_file_payloads_by_transfer_ids : List ℕ → TransferRepository → List FilePayload
find_file_payloads_by_transfer_ids ids r =
    filter (λ p. has p.transfer_id ids) (values r.file_payloads)

abbrev text_payload_of : ℕ → CreateTextPayloadInput → TextPayload
text_payload_of id input = record {
  id = id;
  transfer_id = input.transfer_id;
  content = input.content;
}

unfoldable pub create_text_payload :
    CreateTextPayloadInput → TransferRepository → TextPayload × TransferRepository
create_text_payload input r =
    let p = text_payload_of (r.seq + 1) input in
    (p, record r { seq = r.seq + 1; text_payloads = insert p.transfer_id p r.text_payloads })

abbrev text_transfer_of : ℕ → ℕ → CreateTextTransferInput → Transfer
text_transfer_of now id input = record {
  id = id;
  room_id = input.room_id;
  payload_type = input.payload_type;
  content_length = input.content_length;
  author_participant_id = some (input.author_participant_id);
  created_at = now;
}

-- The Transfer and its text in one write.
unfoldable pub create_text_transfer :
    ℕ → CreateTextTransferInput → TransferRepository → Transfer × TransferRepository
create_text_transfer now input r =
    let id = r.seq + 1 in
    let t = text_transfer_of now id input in
    let p : TextPayload = record { id = id + 1; transfer_id = id; content = input.content } in
    (
      t,
      record r {
        transfers = insert id t r.transfers;
        text_payloads = insert id p r.text_payloads;
        seq = id + 1;
      },
    )

unfoldable pub find_text_payloads_by_transfer_ids : List ℕ → TransferRepository → List TextPayload
find_text_payloads_by_transfer_ids ids r =
    filter (λ p. has p.transfer_id ids) (values r.text_payloads)

-- The keys of those of the Transfers that have a FilePayload.
unfoldable pub storage_keys_of : List Transfer → TransferRepository → List ObjectKey
storage_keys_of [] r = []
storage_keys_of (t ∷ ts) r = elim (lookup t.id r.file_payloads) [
  | none ↦ storage_keys_of ts r
  | some p ↦ p.storage_key ∷ storage_keys_of ts r
]

unfoldable pub list_storage_keys_by_room_id : ℕ → TransferRepository → List ObjectKey
unfolding storage_keys_of
list_storage_keys_by_room_id room r =
    storage_keys_of (filter (λ t. t.room_id == room) (values r.transfers)) r

unfoldable pub delete_by_id : ℕ → TransferRepository → TransferRepository
delete_by_id id r = record r {
  transfers = erase id r.transfers;
  file_payloads = erase id r.file_payloads;
  text_payloads = erase id r.text_payloads;
}

-- The loop over a copy of the Transfers.
pub delete_those_of : ℕ → List Transfer → TransferRepository → TransferRepository
unfolding delete_by_id
delete_those_of room [] r = r
delete_those_of room (t ∷ ts) r =
    delete_those_of room ts (if t.room_id == room then delete_by_id t.id r else r)

unfoldable pub delete_by_room_id : ℕ → TransferRepository → TransferRepository
unfolding delete_those_of
delete_by_room_id room r = delete_those_of room (values r.transfers) r
