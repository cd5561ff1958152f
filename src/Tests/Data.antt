-- ===== src/Tests/Data.antt =====
-- Test data: an API where everything works, one Room, and a file of three bytes.
use synxor.Common.{
  ℕ, zero, suc, ◌≡◌, refl, Bool, true, false, Option, none, some, [], ◌∷◌, Text, codes, length,
  arith,
}
use synxor.Room.Entity.{Room, active}
use synxor.Room.Repository.{RoomRepository}
use synxor.Room.Service.{Signer}
use synxor.Room.World.{World}
use synxor.Storage.Key.{ObjectKey, file_object_key}
use synxor.Storage.Objects.{Bytes}
use synxor.Transfer.Entity.{Transfer, FilePayload, file}
use synxor.Transfer.Http.{TokenClaims, sender_role}
use synxor.Transfer.Repository.{TransferRepository, empty_repository}
use synxor.Transfer.Sessions.{CreateUploadSessionInput, UploadSession, MutableSession, fresh}
use synxor.Transfer.Upload.State.{Api, Env, AcceptChunkInput}
use synxor.Web.ChunkUpload.{File}

abbrev pub three_bytes : Bytes
three_bytes = 10 ∷ 20 ∷ 30 ∷ []

abbrev pub small_file : File
small_file = record { name = codes "a.txt"; type = codes "text/plain"; bytes = three_bytes }

abbrev pub calm : Env
calm = record {
  now = 1000;
  random_uuid = 5;
  create_fails = false;
  create_file_payload_fails = false;
  put_chunk_fails = false;
  put_file_fails = false;
  remove_chunk_fails = λ i. false;
}

abbrev pub claims : TokenClaims
claims = record { room_id = 7; role = sender_role }

abbrev pub token_hash : Text
token_hash = codes "hash"

abbrev pub empty_api : Api
empty_api = record {
  sessions = [];
  transfers = empty_repository;
  participants = record { stored = []; next_id = 1 };
  objects = [];
  emitted = [];
}

-- An upload of the small file, opened at 1000, with nothing received.
abbrev pub upload_input : CreateUploadSessionInput
upload_input = record {
  transfer_id = 5;
  room_id = 7;
  file_name = codes "a.txt";
  file_size_bytes = 3;
  mime_type = codes "text/plain";
  total_chunks = 1;
  author = none;
}

abbrev pub upload : UploadSession
upload = (fresh 1000 upload_input).session

abbrev pub uploading : Api
uploading = record empty_api { sessions = (5, fresh 1000 upload_input) ∷ [] }

-- A file of one byte more than a chunk.
zeros : ℕ → Bytes
zeros zero = []
zeros (suc n) = 0 ∷ zeros n

pub long_bytes : Bytes
unfolding zeros
long_bytes = zeros 262145

length-zeros : (n : ℕ) → length (zeros n) ≡ n
unfolding zeros
length-zeros zero = refl
length-zeros (suc n) = omega (arith, length-zeros n)

pub length-long_bytes : length long_bytes ≡ 262145
unfolding long_bytes
length-long_bytes = length-zeros 262145

abbrev pub long_file : File
long_file = record { name = codes "a.txt"; type = codes "text/plain"; bytes = long_bytes }

-- An upload of that file.
abbrev pub long_upload : MutableSession
long_upload = fresh 1000 (record upload_input { file_size_bytes = 262145; total_chunks = 2 })

abbrev pub long_uploading : Api
long_uploading = record empty_api { sessions = (5, long_upload) ∷ [] }

-- The request that carries a chunk of the small upload.
abbrev pub chunk_input : Option ℕ → ℕ → Bytes → AcceptChunkInput
chunk_input transfer_id i chunk = record {
  room_id = 7;
  transfer_id = transfer_id;
  chunk_index = i;
  total_chunks = 1;
  file_name = codes "a.txt";
  file_size_bytes = 3;
  mime_type = codes "text/plain";
  chunk = chunk;
  author_token_hash = none;
  author_role = none;
}

abbrev pub code : Text
code = codes "K7MW2P"

abbrev pub room : Room
room = record { id = 7; code = code; status = active; expires_at = 5000; created_at = 0 }

abbrev pub rooms : RoomRepository
rooms = record { stored = (code, room) ∷ []; next_id = 8 }

abbrev pub transfer : ℕ → ℕ → Transfer
transfer id room_id = record {
  id = id;
  room_id = room_id;
  payload_type = file;
  content_length = 3;
  author_participant_id = none;
  created_at = 1000;
}

abbrev pub file_payload : ℕ → ℕ → FilePayload
file_payload id room_id = record {
  id = id;
  transfer_id = id;
  file_name = codes "a.txt";
  file_size_bytes = 3;
  mime_type = codes "text/plain";
  storage_key = file_object_key room_id id;
}

-- Transfer 5 in Room 7 and Transfer 6 in Room 8.
abbrev pub two_transfers : TransferRepository
two_transfers = record {
  transfers = (5, transfer 5 7) ∷ (6, transfer 6 8) ∷ [];
  file_payloads = (5, file_payload 5 7) ∷ (6, file_payload 6 8) ∷ [];
  text_payloads = [];
  seq = 0;
}

abbrev pub world : World
world = record {
  api = record uploading {
    transfers = two_transfers;
    objects = (file_object_key 7 5, three_bytes) ∷ (file_object_key 8 6, three_bytes) ∷ [];
  };
  rooms = rooms;
  deliveries = record { rows = []; next_id = 1 };
}

abbrev pub works : ObjectKey → Bool
works k = false

abbrev pub broken : ObjectKey → Bool
broken k = true

-- Signing always works.
abbrev pub signer : Signer
signer room_id role expires_at = some (codes "token")
