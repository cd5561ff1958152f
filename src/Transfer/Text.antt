-- ===== src/Transfer/Text.antt =====
-- Text that is sent over the socket: apps/api/src/domain/transfer/text-payload.ts and the schema of
-- apps/api/src/transfer/dto/text-payload.dto.ts. The platform's URL parser is an argument: the
-- protocol of a text that it parses, and `none` where it throws.
use synxor.Common.{
  ℕ, Bool, ◌&&◌, ◌||◌, leb, if◌then◌else◌, Option, none, some, length, Text, codes, text_beq,
}
use synxor.Participant.Identity.{trim}
use synxor.Transfer.Entity.{PayloadType, text_snippet, link}

abbrev pub max_text_payload_chars : ℕ
max_text_payload_chars = 100000

pub record ClassifiedText : Type 0 where
  pub payload_type : PayloadType
  pub content : Text

abbrev pub is_web : Text → Bool
is_web protocol = text_beq protocol (codes "http:") || text_beq protocol (codes "https:")

unfoldable pub classify_text_payload : (Text → Option Text) → Text → ClassifiedText
classify_text_payload protocol_of text = elim (protocol_of (trim text)) [
  | none ↦ record { payload_type = text_snippet; content = text }
  | some protocol ↦
      if is_web protocol
      then record { payload_type = link; content = trim text }
      else record { payload_type = text_snippet; content = text }
]

-- `sendTextSchema`, on a body whose `text` is a string.
unfoldable pub send_text_schema : Text → Bool
send_text_schema text = leb 1 (length text) && leb (length text) max_text_payload_chars
