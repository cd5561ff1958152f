-- ===== src/Tests/Access.antt =====
-- Room Tokens and sessions: a JWT library and a JSON of numbers, and what is signed, verified, stored
-- and read with them.
use synxor.Common.{
  ℕ, zero, suc, ◌/◌, ◌≤◌, ◌<◌, ◌≡◌, ◌≢◌, refl, ap, subst, true, false, ltb, if◌then◌else◌, Option,
  none, some, [], ◌∷◌, ◌++◌, Text, codes, text_eq, length, take, drop, ok, arith,
}
use synxor.Room.Entity.{second_ms, is_expired}
use synxor.Room.Gateway.{authenticate}
use synxor.Room.Repository.{find_by_code}
use synxor.Room.Service.{join, JoinRoomResult}
use synxor.Security.{
  Seconds, seconds_until, VerifiedClaims, Jwt, IsJwt, expiry, sign, verify, Request, bearer,
  extract_token, guards, room_token_guard, check_token, room_role_guard,
}
use synxor.Security.Tokens.{
  authenticate-join, authenticate-expired, role_fits, guards_lem, IsCarried,
}
use synxor.Transfer.Http.{TokenRole, TokenClaims, sender_role, receiver_role}
use synxor.Web.RoomSession.{
  RoomSession, RoomRole, sender, Json, IsJson, Parsed, an_object, Field, absent, a_text, other,
  field, role_field, role_text, Storage, store, get,
}
use synxor.Web.RoomSession.Kept.{get-store}
use synxor.Tests.Data.{code, room, rooms}

-- Tokens that carry their claims, their subject and their expiry in the clear.
abbrev role_number : TokenRole → ℕ
role_number sender_role = 0
role_number receiver_role = 1

abbrev role_at : ℕ → TokenRole
role_at zero = sender_role
role_at (suc n) = receiver_role

abbrev open_sign : ℕ → TokenClaims → Seconds → ℕ → Option Text
open_sign now c s sub = some (c.room_id ∷ role_number c.role ∷ sub ∷ expiry now s ∷ [])

abbrev open_verify : ℕ → Text → Option VerifiedClaims
open_verify now (room_id ∷ role ∷ sub ∷ at ∷ []) =
    if ltb (now / second_ms) at
    then some
        (record { claims = record { room_id = room_id; role = role_at role }; sub = some sub })
    else none
open_verify now t = none

abbrev open_jwt : Jwt
open_jwt = record { sign_jwt = open_sign; verify_jwt = open_verify }

signed_injective : (x y : Text) → some x ≡ some y → x ≡ y
signed_injective x y h = cc

role_at-number : (r : TokenRole) → role_at (role_number r) ≡ r
role_at-number sender_role = refl
role_at-number receiver_role = refl

open_accepts :
    (now later : ℕ) (c : TokenClaims) (s : Seconds) (sub : ℕ) (t : Text)
    → open_sign now c s sub ≡ some t
    → later / second_ms < expiry now s
    → open_verify later t ≡ some (record { claims = c; sub = some sub })
open_accepts now later c s sub t h lt =
    subst (λ u. open_verify later u ≡ some (record { claims = c; sub = some sub }))
      (signed_injective _ t h) (ground (arith, lt, role_at-number c.role))

open_expires :
    (now later : ℕ) (c : TokenClaims) (s : Seconds) (sub : ℕ) (t : Text)
    → open_sign now c s sub ≡ some t
    → expiry now s ≤ later / second_ms
    → open_verify later t ≡ none
open_expires now later c s sub t h le =
    subst (λ u. open_verify later u ≡ none) (signed_injective _ t h) (ground (arith, le))

open_jwt-IsJwt : IsJwt open_jwt
open_jwt-IsJwt = record {
  is_text = λ now c s sub e. absurd cc;
  accepts = open_accepts;
  expires = open_expires;
}

abbrev joined : JoinRoomResult
joined = record { room_token = 7 ∷ 1 ∷ 7 ∷ 5 ∷ []; room_id = 7 }

rooms-joined : join (sign open_jwt 1000) 1000 code rooms ≡ ok joined
unfolding join find_by_code sign seconds_until is_expired
rooms-joined = refl

code-found : find_by_code code rooms ≡ some room
unfolding find_by_code
code-found = refl

authenticate-join_example :
    authenticate (verify open_jwt 2000) (some joined.room_token)
    ≡ some (joined.room_token, record { room_id = 7; role = receiver_role })
authenticate-join_example =
    authenticate-join open_jwt open_jwt-IsJwt 1000 2000 code rooms joined rooms-joined room
      code-found (omega arith)

authenticate-expired_example : authenticate (verify open_jwt 5000) (some joined.room_token) ≡ none
authenticate-expired_example =
    authenticate-expired open_jwt open_jwt-IsJwt 1000 5000 code rooms joined rooms-joined room
      code-found (omega arith)

abbrev claims : TokenClaims
claims = record { room_id = 7; role = receiver_role }

abbrev request : Request
request = record { authorization = some (bearer ++ joined.room_token); query_token = none }

request-passes :
    guards open_jwt 2000 (some (receiver_role, codes "Only Receivers")) request
    ≡ ok (claims, joined.room_token)
unfolding guards room_token_guard check_token extract_token verify room_role_guard
request-passes = refl

guards_lem_example :
    (verify open_jwt 2000 joined.room_token ≡ some claims)
    × (joined.room_token ≢ [])
    × IsCarried request joined.room_token
    × (role_fits (some (receiver_role, codes "Only Receivers")) claims ≡ true)
guards_lem_example =
    guards_lem open_jwt 2000 (some (receiver_role, codes "Only Receivers")) request claims
      joined.room_token request-passes

-- A JSON that writes each text after its length.
abbrev put : Text → Text
put t = length t ∷ t

abbrev put_field : Option Text → Text
put_field none = 0 ∷ []
put_field (some t) = 1 ∷ put t

-- A text that was put, and what follows.
abbrev take_text : Text → Text × Text
take_text [] = ([], [])
take_text (n ∷ t) = (take n t, drop n t)

abbrev take_field : Text → Field × Text
take_field [] = (other, [])
take_field (zero ∷ t) = (absent, t)
take_field (suc n ∷ t) = let (x, rest) = take_text t in (a_text x, rest)

take-put :
    (t rest : Text) → (take (length t) (t ++ rest) ≡ t) × (drop (length t) (t ++ rest) ≡ rest)
take-put [] rest = (refl, refl)
take-put (c ∷ t) rest = ground (arith, take-put t rest)

take_text-put : (t rest : Text) → take_text (put t ++ rest) ≡ (t, rest)
take_text-put t rest = ground (arith, take-put t rest)

take_field-put :
    (o : Option Text) (rest : Text) → take_field (put_field o ++ rest) ≡ (field o, rest)
take_field-put none rest = refl
take_field-put (some t) rest = ground (arith, take-put t rest)

abbrev role_option : Option RoomRole → Option Text
role_option none = none
role_option (some r) = some (role_text r)

abbrev write : RoomSession → Text
write s =
    put s.token
    ++ (put_field s.expires_at
        ++ (put_field s.created_at ++ (put_field (role_option s.role) ++ [])))

abbrev read : Text → Option Parsed
read t =
    let (token, t₁) = take_text t in
    let (expires_at, t₂) = take_field t₁ in
    let (created_at, t₃) = take_field t₂ in
    let (role, _) = take_field t₃ in
    some (
      an_object (record {
        token = a_text token;
        expires_at = expires_at;
        created_at = created_at;
        role = role;
      }))

abbrev numbers_json : Json
numbers_json = record { stringify = write; parse = read }

role_option-field : (o : Option RoomRole) → field (role_option o) ≡ role_field o
role_option-field none = refl
role_option-field (some r) = refl

numbers_json-IsJson : IsJson numbers_json
numbers_json-IsJson s = ground (
  arith,
  take_text-put s.token (
      put_field s.expires_at ++ (put_field s.created_at ++ (put_field (role_option s.role) ++ []))),
  take_field-put s.expires_at (put_field s.created_at ++ (put_field (role_option s.role) ++ [])),
  take_field-put s.created_at (put_field (role_option s.role) ++ []),
  take_field-put (role_option s.role) [],
  role_option-field s.role,
)

abbrev session : RoomSession
session = record {
  token = codes "token";
  expires_at = some (codes "2026");
  created_at = none;
  role = some sender;
}

abbrev no_storage : Storage
no_storage = record { session = []; fallback = [] }

code-other : codes "A" ≢ code
code-other e = omega (arith, ap length e)

get-store_example :
    let s' = store numbers_json true code session no_storage in
    (get numbers_json false code s' ≡ some session)
    × (get numbers_json false (codes "A") s' ≡ get numbers_json false (codes "A") no_storage)
get-store_example =
    get-store numbers_json true false code session no_storage (codes "A") numbers_json-IsJson refl
      code-other
