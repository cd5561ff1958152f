-- ===== src/Tests/Uploads.antt =====
-- Uploads of small files.
use synxor.Common.{
  nat_eq, ◌≤◌, ◌≡◌, ◌≢◌, ◌↔◌, refl, ap, sym, ◌∙◌, true, false, none, some, List, [], ◌∷◌, ok, err,
  arith,
}
use synxor.Storage.Objects.{Objects}
use synxor.Storage.Key.{chunk_object_key}
use synxor.Transfer.Chunking.{chunk_size_bytes, validate_chunk}
use synxor.Transfer.Chunking.Laws.{IsChunkOf, validate_chunk_iff}
use synxor.Transfer.Chunking.Slices.{slice}
use synxor.Transfer.Delivery.{find_by_transfer_id}
use synxor.Transfer.Delivery.Once.{Download, announcements, confirm_all, confirm_all_once}
use synxor.Transfer.Errors.{chunk_total_mismatch}
use synxor.Transfer.Http.{chunk_upload_schema, is_mime_type}
use synxor.Transfer.Repository.Purge.{IsConsistent}
use synxor.Transfer.Sessions.{fresh, get, received, mark_received, find_abandoned}
use synxor.Transfer.Sessions.Cap.{in_flight, Call, reserves, marks, run, run-in_flight}
use synxor.Transfer.Sessions.Received.{marked}
use synxor.Transfer.Upload.State.{Api, AcceptChunkInput}
use synxor.Transfer.Upload.Open.{session_input}
use synxor.Transfer.Upload.Accept.{accept_chunk}
use synxor.Transfer.Upload.Complete.{
  IsTotal, Receives, IsQuiet, Carries, answer, IsDelivered, accept_chunk_more, accept_chunk_last,
}
use synxor.Transfer.Upload.First.{Starts, opened, accept_chunk_stranded}
use synxor.Transfer.Upload.Guards.{IsAdmissible, shape, accept_chunk_guarded}
use synxor.Web.ChunkUpload.{total_for, request_for, upload_file_in_chunks}
use synxor.Web.ChunkUpload.Delivers.{route, upload_file_in_chunks-IsDelivered}
use synxor.Sweeper.Uploads.{lists, find_abandoned-mark_received}
use synxor.Tests.Data.{
  long_bytes, length-long_bytes, long_file, long_upload, long_uploading, three_bytes, calm, claims,
  token_hash, empty_api, upload_input, upload, uploading, chunk_input, two_transfers,
}

pub calm-IsQuiet : IsQuiet calm
calm-IsQuiet = record {
  creates = refl;
  creates_file_payload = refl;
  puts_chunk = refl;
  puts_file = refl;
  removes = λ i. refl;
}

long_file-valid : chunk_upload_schema (request_for long_file none 0) ≡ true
unfolding chunk_upload_schema request_for is_mime_type total_for
long_file-valid = ground (arith, length-long_bytes)

upload_file_in_chunks-IsDelivered_example :
    let (r, _, s') =
      upload_file_in_chunks (route (λ i. calm) 300000 claims token_hash) long_file empty_api in
    (r
      ≡ ok (
          some (record {
            transfer_id = 5;
            received_chunks = total_for long_file;
            total_chunks = total_for long_file;
            complete = true;
          })))
    × IsDelivered long_bytes 7 (total_for long_file) 5 s'
upload_file_in_chunks-IsDelivered_example =
    upload_file_in_chunks-IsDelivered (λ i. calm) 300000 claims token_hash long_file
      (λ i. calm-IsQuiet) long_file-valid empty_api (omega (arith, length-long_bytes))
      (omega (arith, length-long_bytes)) (omega arith)

long_bytes-IsTotal : IsTotal long_bytes 2
long_bytes-IsTotal = record {
  not_empty = omega (arith, length-long_bytes);
  covers = omega (arith, length-long_bytes);
  least = omega (arith, length-long_bytes);
}

long_uploading-Receives : Receives long_bytes 5 long_upload.session long_uploading
unfolding get
long_uploading-Receives = record {
  found = refl;
  own = refl;
  sized = omega (arith, length-long_bytes);
  total = long_bytes-IsTotal;
  distinct = tt;
  below = tt;
  stored = λ i h. absurd (ground arith);
}

abbrev long_chunk : AcceptChunkInput
long_chunk = chunk_input (some 5) 0 (slice chunk_size_bytes 0 long_bytes)

long_chunk-Carries : Carries long_bytes 5 0 long_upload.session long_chunk
long_chunk-Carries = record {
  resumes = refl;
  room = refl;
  index = refl;
  in_range = omega arith;
  part = refl;
}

accept_chunk_more_example :
    let (r, s') = accept_chunk calm 300000 long_chunk long_uploading in
    (r ≡ ok (answer (marked 0 long_upload.session) false))
    × Receives long_bytes 5 (marked 0 long_upload.session) s'
accept_chunk_more_example =
    accept_chunk_more calm 300000 long_bytes 5 0 long_upload.session long_uploading long_chunk
      calm-IsQuiet long_uploading-Receives long_chunk-Carries (λ h. absurd (ground arith))

pub three_bytes-IsTotal : IsTotal three_bytes 1
three_bytes-IsTotal = record { not_empty = omega arith; covers = omega arith; least = omega arith }

pub uploading-Receives : Receives three_bytes 5 upload uploading
unfolding get
uploading-Receives = record {
  found = refl;
  own = refl;
  sized = refl;
  total = three_bytes-IsTotal;
  distinct = tt;
  below = tt;
  stored = λ i h. absurd (ground arith);
}

pub first_chunk-Carries : Carries three_bytes 5 0 upload (chunk_input (some 5) 0 three_bytes)
unfolding slice
first_chunk-Carries = record {
  resumes = refl;
  room = refl;
  index = refl;
  in_range = omega arith;
  part = refl;
}

accept_chunk_last_example :
    let (r, s') = accept_chunk calm 100 (chunk_input (some 5) 0 three_bytes) uploading in
    (r ≡ ok (answer (marked 0 upload) true)) × IsDelivered three_bytes 7 1 5 s'
accept_chunk_last_example =
    accept_chunk_last calm 100 three_bytes 5 0 upload uploading (chunk_input (some 5) 0 three_bytes)
      calm-IsQuiet uploading-Receives first_chunk-Carries refl

-- Once the first chunk is in, the state is another one.
accept_chunk-changes :
    (accept_chunk calm 100 (chunk_input (some 5) 0 three_bytes) uploading).1 ≢ uploading
accept_chunk-changes h =
    let gone : get 5 uploading.sessions ≡ none =
      ap (λ (s : Api). get 5 s.sessions) (sym h) ∙ accept_chunk_last_example.1.released in
    absurd (ground (arith, gone, uploading-Receives.found))

accept_chunk_guarded_example : IsAdmissible 5 (chunk_input (some 5) 0 three_bytes) uploading
accept_chunk_guarded_example =
    accept_chunk_guarded calm 100 5 (chunk_input (some 5) 0 three_bytes) uploading refl
      accept_chunk-changes

-- A first chunk of a file of three bytes, with a wrong total.
abbrev wrong_total : AcceptChunkInput
wrong_total = record (chunk_input none 0 three_bytes) { total_chunks = 2 }

wrong_total-Starts : Starts 100 wrong_total empty_api
wrong_total-Starts = record { first = refl; fits = omega arith; slot = omega arith }

wrong_total-refused :
    validate_chunk (shape (opened calm wrong_total empty_api) wrong_total)
    ≡ err (chunk_total_mismatch 2 1)
unfolding validate_chunk session_input
wrong_total-refused = refl

accept_chunk_stranded_example :
    let (r, s') = accept_chunk calm 100 wrong_total empty_api in
    (r ≡ err (chunk_total_mismatch 2 1))
    × (get 5 s'.sessions ≡ some (opened calm wrong_total empty_api))
accept_chunk_stranded_example =
    accept_chunk_stranded calm 100 empty_api wrong_total refl refl wrong_total-Starts
      (chunk_total_mismatch 2 1) wrong_total-refused

validate_chunk_iff_example :
    (validate_chunk
        (record { file_size_bytes = 262145; total_chunks = 2; chunk_index = 1; byte_length = 1 })
      ≡ ok tt)
    ↔ IsChunkOf
        (record { file_size_bytes = 262145; total_chunks = 2; chunk_index = 1; byte_length = 1 })
validate_chunk_iff_example =
    validate_chunk_iff
      (record { file_size_bytes = 262145; total_chunks = 2; chunk_index = 1; byte_length = 1 })

abbrev two_calls : List Call
two_calls =
    reserves 1000 upload_input
    ∷ marks 5 0
    ∷ reserves 1001 (record upload_input { transfer_id = 6 })
    ∷ []

run-in_flight_example : in_flight 7 (run 1 [] two_calls) ≤ 1
run-in_flight_example = run-in_flight 1 7 [] two_calls (omega arith)

abbrev one_chunk : Objects
one_chunk = (chunk_object_key 7 5 0, three_bytes) ∷ []

-- Two downloads of one Transfer, the first while the database fails.
abbrev downloads : List Download
downloads =
    record { transfer_id = 5; room_id = 7; at = 1; fails = true }
    ∷ record { transfer_id = 5; room_id = 7; at = 2; fails = false }
    ∷ record { transfer_id = 5; room_id = 7; at = 3; fails = false }
    ∷ []

confirm_all_once_example :
    announcements 5 (confirm_all downloads (record { rows = []; next_id = 1 })).1 ≡ 1
unfolding find_by_transfer_id
confirm_all_once_example = confirm_all_once 5 downloads (record { rows = []; next_id = 1 }) refl

pub two_transfers-IsConsistent : IsConsistent two_transfers
two_transfers-IsConsistent = record { keyed = (refl, (refl, tt)); indexed = (refl, (refl, tt)) }

find_abandoned-mark_received_example :
    ((mark_received 5 0 uploading.sessions).0 ≡ ok (received 0 (fresh 1000 upload_input)).session)
    × (lists 5 (find_abandoned 2000 (mark_received 5 0 uploading.sessions).1) ≡ true)
find_abandoned-mark_received_example =
    find_abandoned-mark_received 5 0 2000 (fresh 1000 upload_input) uploading.sessions refl refl
      (omega arith)
