-- ===== src/Web/TransferLog.antt =====
-- apps/web/src/features/room/utils/transfer-log.ts: the one stream of messages that the client
-- makes of the Room's Log and the live events. Times are milliseconds: those of the Log are parsed
-- already, and the clock is an argument. No overrides and no entries in them come to the same.
pub mod Monotone
pub mod Order
use synxor.Common.{
  ℕ, Bool, true, false, ◌||◌, leb, has, if◌then◌else◌, map, Option, none, some, List, [], ◌∷◌, Text,
  codes, text_beq, text_eq, Dict, values, lookup, insert, nat_eq, sort,
}
use synxor.Participant.Identity.{ParticipantIdentity, collapse, trim}
use synxor.Room.Events.{TransferAuthor, TransferProgressPayload}
use synxor.Room.Log.{RoomTransfer}
use synxor.Web.RoomSocket.{RoomText}
use synxor.Transfer.Entity.{PayloadType, file, text_snippet, link}

pub data TransferKind : Type 0 where
  a_file a_snippet a_link : TransferKind

pub data TransferStatus : Type 0 where
  in_progress is_delivered : TransferStatus

pub record TransferLogRow : Type 0 where
  pub id : ℕ
  pub kind : TransferKind
  pub name : Text
  pub content : Option Text
  pub status : TransferStatus
  pub size_bytes : Option ℕ
  pub href : Option Text
  pub author : Option TransferAuthor
  pub mine : Bool
  pub received_at : ℕ

pub record MergeTransferLogInput : Type 0 where
  pub history : List RoomTransfer
  pub transfers : List TransferProgressPayload
  pub texts : List RoomText
  pub delivered : List ℕ
  pub own_ids : List ℕ
  pub self_key : Option Text
  pub live_timestamps : Dict ℕ ℕ
  pub identity_overrides : Dict Text ParticipantIdentity
  pub download_href : Option (ℕ → Text → Option Text)

unfoldable pub snippet_preview : Text → Text
unfolding trim collapse
snippet_preview content = trim (collapse false content)

abbrev key_of : Option TransferAuthor → Option Text
key_of none = none
key_of (some a) = elim (a.identity) [ none ↦ none | some i ↦ some i.key ]

abbrev same_key : Option Text → Option Text → Bool
same_key none self = false
same_key (some k) none = false
same_key (some k) (some self) = text_beq k self

unfoldable pub is_own_file : Option TransferAuthor → Option Text → Bool
is_own_file author self_key = same_key (key_of author) self_key

abbrev is_link : PayloadType → Bool
is_link file = false
is_link text_snippet = false
is_link link = true

unfoldable pub text_row : ℕ → PayloadType → Text → Option TransferAuthor → Bool → ℕ → TransferLogRow
unfolding snippet_preview
text_row id payload_type content author mine received_at = record {
  id = id;
  kind = if is_link payload_type then a_link else a_snippet;
  name = if is_link payload_type then content else snippet_preview content;
  content = some content;
  status = is_delivered;
  size_bytes = none;
  href = if is_link payload_type then some content else none;
  author = author;
  mine = mine;
  received_at = received_at;
}

abbrev href_for : Option (ℕ → Text → Option Text) → ℕ → Text → Option Text
href_for none id name = none
href_for (some f) id name = f id name

abbrev file_row :
    ℕ → Text → Bool → Option ℕ → Option TransferAuthor → ℕ → MergeTransferLogInput → TransferLogRow
file_row id name delivered size author received_at input =
    let mine = is_own_file author input.self_key in
    record {
      id = id;
      kind = a_file;
      name = name;
      content = none;
      status = if delivered then is_delivered else in_progress;
      size_bytes = size;
      href = href_for input.download_href id name;
      author = if mine then none else author;
      mine = mine;
      received_at = received_at;
    }

-- A row of the Log without a readable body is skipped.
unfoldable pub history_row : RoomTransfer → MergeTransferLogInput → Option TransferLogRow
unfolding text_row is_own_file
history_row item input = elim (item.payload_type) [
  | file ↦ some (
      file_row item.id (elim (item.file_name) [ none ↦ codes "File" | some n ↦ n ]) item.delivered
        item.file_size_bytes item.author item.created_at input)
  | other ↦ elim (item.content) [
    | none ↦ none
    | some content ↦
        some
          (text_row item.id other content item.author (has item.id input.own_ids) item.created_at)
  ]
]

unfoldable pub live_file_row : TransferProgressPayload → ℕ → MergeTransferLogInput → TransferLogRow
unfolding is_own_file
live_file_row p received_at input =
    file_row p.transfer_id p.file_name (has p.transfer_id input.delivered) (some p.file_size_bytes)
      p.author received_at input

unfoldable pub live_text_row : RoomText → ℕ → TransferLogRow
unfolding text_row
live_text_row t received_at =
    text_row t.transfer_id t.payload_type t.content t.author t.mine received_at

-- The loop over the Log.
unfoldable pub set_history :
    List RoomTransfer → MergeTransferLogInput → Dict ℕ TransferLogRow → Dict ℕ TransferLogRow
unfolding history_row
set_history [] input rows = rows
set_history (item ∷ items) input rows =
    set_history items input
      (elim (history_row item input) [ none ↦ rows | some row ↦ insert item.id row rows ])

abbrev pub later_status : TransferStatus → TransferStatus → TransferStatus
later_status is_delivered new = is_delivered
later_status in_progress new = new

-- A live row over the persisted one.
abbrev pub refine : TransferLogRow → TransferLogRow → TransferLogRow
refine existing row = record row {
  received_at = existing.received_at;
  status = later_status existing.status row.status;
  mine = existing.mine || row.mine;
}

unfoldable pub overlay : TransferLogRow → Dict ℕ TransferLogRow → Dict ℕ TransferLogRow
overlay row rows = elim (lookup row.id rows) [
  | none ↦ insert row.id row rows
  | some existing ↦ insert row.id (refine existing row) rows
]

abbrev seen_at : ℕ → ℕ → MergeTransferLogInput → ℕ
seen_at now id input = elim (lookup id input.live_timestamps) [ none ↦ now | some at ↦ at ]

-- The live rows in the order in which they are laid over the Log: the files, then the texts.
unfoldable pub live_files :
    ℕ → List TransferProgressPayload → MergeTransferLogInput → List TransferLogRow
unfolding live_file_row
live_files now ps input = map (λ p. live_file_row p (seen_at now p.transfer_id input) input) ps

unfoldable pub live_texts : ℕ → List RoomText → MergeTransferLogInput → List TransferLogRow
unfolding live_text_row
live_texts now ts input = map (λ t. live_text_row t (seen_at now t.transfer_id input)) ts

unfoldable pub overlay_all : List TransferLogRow → Dict ℕ TransferLogRow → Dict ℕ TransferLogRow
unfolding overlay
overlay_all [] rows = rows
overlay_all (row ∷ live) rows = overlay_all live (overlay row rows)

-- The rows by id, before they are sorted.
unfoldable pub merged_rows : ℕ → MergeTransferLogInput → Dict ℕ TransferLogRow
unfolding set_history overlay_all live_files live_texts
merged_rows now input =
    overlay_all (live_texts now input.texts input)
      (overlay_all (live_files now input.transfers input) (set_history input.history input []))

unfoldable pub with_identity_override :
    Dict Text ParticipantIdentity → Option TransferAuthor → Option TransferAuthor
with_identity_override overrides none = none
with_identity_override overrides (some author) = elim (author.identity) [
  | none ↦ some author
  | some i ↦ elim (lookup i.key overrides) [
    | none ↦ some author
    | some latest ↦ some (record author { identity = some latest })
  ]
]

-- Older rows first; rows of the same time keep the order in which they came.
abbrev pub not_after : TransferLogRow → TransferLogRow → Bool
not_after a b = leb a.received_at b.received_at

abbrev pub with_override : MergeTransferLogInput → TransferLogRow → TransferLogRow
with_override input row = record row {
  author = with_identity_override input.identity_overrides row.author;
}

unfoldable pub merge_transfer_log : ℕ → MergeTransferLogInput → List TransferLogRow
unfolding merged_rows with_identity_override sort
merge_transfer_log now input =
    map (with_override input) (sort not_after (values (merged_rows now input)))
