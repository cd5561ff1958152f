-- ===== src/Web/RoomSession.antt =====
-- apps/web/src/features/room/services/room-session.service.ts: what a tab keeps of the Rooms that it is
-- in. JSON is an argument, and so is whether the browser's storage throws.
pub mod Kept
use synxor.Common.{
  ℕ, ◌≡◌, Bool, true, false, ◌&&◌, ◌||◌, if◌then◌else◌, Option, none, some, List, [], ◌∷◌, ◌++◌,
  Text, codes, text_beq, text_eq, Dict, insert, lookup,
}

pub data RoomRole : Type 0 where
  sender receiver : RoomRole

pub record RoomSession : Type 0 where
  pub token : Text
  pub expires_at : Option Text
  pub created_at : Option Text
  pub role : Option RoomRole

abbrev is_full : Option Text → Bool
is_full none = false
is_full (some []) = false
is_full (some (c ∷ cs)) = true

unfoldable pub session_role : RoomSession → RoomRole
session_role s = elim (s.role) [
  | some r ↦ r
  | none ↦ if is_full s.expires_at then sender else receiver
]

-- A field of a parsed object: not there, text, or something else.
pub data Field : Type 0 where
  absent other : Field
  a_text : Text → Field

-- What `JSON.parse` makes of a text, as far as the service looks: an object with its fields, or
-- anything else.
pub record Fields : Type 0 where
  pub token : Field
  pub expires_at : Field
  pub created_at : Field
  pub role : Field

pub data Parsed : Type 0 where
  no_object : Parsed
  an_object : Fields → Parsed

pub record Json : Type 0 where
  pub stringify : RoomSession → Text
  pub parse : Text → Option Parsed

abbrev pub field : Option Text → Field
field none = absent
field (some t) = a_text t

abbrev pub role_text : RoomRole → Text
role_text sender = codes "sender"
role_text receiver = codes "receiver"

abbrev pub role_field : Option RoomRole → Field
role_field none = absent
role_field (some r) = a_text (role_text r)

-- What the service relies on: what was written as JSON is parsed back, and a field that is undefined
-- is left out.
abbrev pub IsJson : Json → Type 0
IsJson j =
    (s : RoomSession)
    → j.parse (j.stringify s)
      ≡ some (
          an_object (record {
            token = a_text s.token;
            expires_at = field s.expires_at;
            created_at = field s.created_at;
            role = role_field s.role;
          }))

-- The storage of `defaultStorage`: the browser's, and the one in memory behind it.
pub record Storage : Type 0 where
  pub session : Dict Text Text
  pub fallback : Dict Text Text

unfoldable pub get_item : Bool → Text → Storage → Option Text
get_item throws key s =
    if throws
    then lookup key s.fallback
    else elim (lookup key s.session) [ none ↦ lookup key s.fallback | some v ↦ some v ]

unfoldable pub set_item : Bool → Text → Text → Storage → Storage
set_item throws key v s =
    if throws
    then record s { fallback = insert key v s.fallback }
    else record s { session = insert key v s.session }

abbrev pub key_for : Text → Text
key_for room_code = codes "synxor.room." ++ room_code ++ codes ".session"

unfoldable pub store : Json → Bool → Text → RoomSession → Storage → Storage
unfolding set_item
store j throws room_code session s = set_item throws (key_for room_code) (j.stringify session) s

-- `now` is `new Date().toISOString()`.
unfoldable pub store_new_sender : Json → Bool → Text → Text → Text → Text → Storage → Storage
unfolding store
store_new_sender j throws now room_code token expires_at s =
    store j throws room_code
      (record {
        token = token;
        expires_at = some expires_at;
        created_at = some now;
        role = some sender;
      })
      s

-- An optional field that is text or not there.
abbrev optional : Field → Option (Option Text)
optional absent = some none
optional (a_text t) = some (some t)
optional other = none

abbrev role_of : Field → Option (Option RoomRole)
role_of absent = some none
role_of other = none
role_of (a_text t) =
    if text_beq t (codes "sender")
    then some (some sender)
    else if text_beq t (codes "receiver")
    then some (some receiver)
    else none

-- The check of `get`.
unfoldable pub session_of : Fields → Option RoomSession
session_of f = elim (f.token) [
  | absent ↦ none
  | other ↦ none
  | a_text t ↦ elim (optional f.expires_at) [
    | none ↦ none
    | some e ↦ elim (optional f.created_at) [
      | none ↦ none
      | some c ↦ elim (role_of f.role) [
        | none ↦ none
        | some r ↦ some (record { token = t; expires_at = e; created_at = c; role = r })
      ]
    ]
  ]
]

unfoldable pub get : Json → Bool → Text → Storage → Option RoomSession
unfolding get_item session_of
get j throws room_code s = elim (get_item throws (key_for room_code) s) [
  | none ↦ none
  | some raw ↦ elim (j.parse raw) [
    | none ↦ none
    | some no_object ↦ none
    | some (an_object f) ↦ session_of f
  ]
]
