-- ===== src/Tests/Streams.antt =====
-- Downloads that follow an upload, the Log of a Room, and the client's stream.
use synxor.Common.{nat_eq, ◌≡◌, refl, true, false, none, some, [], ◌∷◌, map, codes, arith}
use synxor.Room.Log.{RoomTransfer, log_of}
use synxor.Room.Log.Laws.{is_delivered, log_of-delivered}
use synxor.Room.Repository.{find_by_id}
use synxor.Room.World.{World}
use synxor.Storage.Key.{file_object_key}
use synxor.Storage.Objects.{get_object}
use synxor.Transfer.Delivery.{delivery_of}
use synxor.Transfer.Download.{Observation, complete, follow_upload}
use synxor.Transfer.Download.Follows.{
  Shows, Receives-Shows, follow_upload_ended, follow_upload_whole,
}
use synxor.Transfer.Entity.{file}
use synxor.Transfer.Sessions.{get}
use synxor.Web.TransferLog.{TransferLogRow, TransferStatus, a_file, MergeTransferLogInput}
use synxor.Tests.Data.{three_bytes, upload, uploading, world, room, transfer}
use synxor.Tests.Uploads.{uploading-Receives}

-- The download starts before the first chunk is in, and looks again when the upload is over.
abbrev early : Observation
early = record { sessions = uploading.sessions; objects = []; fails = false }

abbrev late : Observation
late = record { sessions = []; objects = (file_object_key 7 5, three_bytes) ∷ []; fails = false }

early-Shows : Shows three_bytes 7 5 1 early
early-Shows = Receives-Shows three_bytes 5 upload uploading false uploading-Receives

late-Shows : Shows three_bytes 7 5 1 late
unfolding get get_object
late-Shows = record {
  counted = λ m e. absurd (ground arith);
  parts = λ m i chunk e h g. absurd (ground arith);
  whole = λ e. refl;
}

follow_upload_whole_example :
    follow_upload 5 7 (file_object_key 7 5) (early ∷ late ∷ []) 0 ≡ (three_bytes, complete)
unfolding get
follow_upload_whole_example =
    follow_upload_whole three_bytes 7 5 1 (omega arith) (early ∷ []) late (early-Shows, tt)
      late-Shows (refl, tt) refl refl

ended : (follow_upload 5 7 (file_object_key 7 5) (early ∷ late ∷ []) 0).1 ≡ complete
unfolding follow_upload get get_object
ended = refl

follow_upload_ended_example :
    (follow_upload 5 7 (file_object_key 7 5) (early ∷ late ∷ []) 0).0 ≡ three_bytes
follow_upload_ended_example =
    follow_upload_ended three_bytes 7 5 1 (omega arith) (early ∷ late ∷ [])
      (early-Shows, (late-Shows, tt)) ended

-- Transfer 5 was delivered, and Transfer 9 was not.
abbrev delivered_world : World
delivered_world = record world {
  deliveries = record { rows = (5, delivery_of 2000 1 5) ∷ []; next_id = 2 };
}

log_of-delivered_example :
    map (λ row. row.delivered) (log_of (transfer 5 7 ∷ transfer 9 7 ∷ []) 7 delivered_world)
    ≡ map (is_delivered delivered_world.deliveries) (transfer 5 7 ∷ transfer 9 7 ∷ [])
log_of-delivered_example =
    log_of-delivered (transfer 5 7 ∷ transfer 9 7 ∷ []) 7 delivered_world (refl, tt)

room-found : find_by_id room.id world.rooms ≡ some room
unfolding find_by_id
room-found = refl

-- A file that the Log has as delivered, while its last progress event says otherwise.
abbrev logged : RoomTransfer
logged = record {
  id = 5;
  payload_type = file;
  file_name = some (codes "a.txt");
  file_size_bytes = some 3;
  content = none;
  author = none;
  delivered = true;
  created_at = 1000;
}

abbrev stream : MergeTransferLogInput
stream = record {
  history = logged ∷ [];
  transfers =
      record {
        transfer_id = 5;
        file_name = codes "a.txt";
        file_size_bytes = 3;
        received_chunks = 1;
        total_chunks = 1;
        complete = true;
        author = none;
      }
      ∷ [];
  texts = [];
  delivered = [];
  own_ids = [];
  self_key = none;
  live_timestamps = (5, 4000) ∷ [];
  identity_overrides = [];
  download_href = none;
}

abbrev logged_row : TransferLogRow
logged_row = record {
  id = 5;
  kind = a_file;
  name = codes "a.txt";
  content = none;
  status = TransferStatus.is_delivered;
  size_bytes = some 3;
  href = none;
  author = none;
  mine = false;
  received_at = 1000;
}
