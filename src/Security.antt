-- ===== src/Security.antt =====
-- Room Tokens: apps/api/src/infrastructure/security/jwt-token-issuer.ts and jwt-token-verifier.ts,
-- apps/api/src/common/time.ts, and the guards of apps/api/src/common/auth. The JWT library is an
-- argument; times are milliseconds.
pub mod Tokens
use synxor.Common.{
  ℕ, zero, suc, ◌+◌, ◌-◌, ◌*◌, ◌/◌, ◌<◌, ◌≤◌, ◌≡◌, ◌≢◌, Bool, true, false, leb, ltb, ◌==◌, ◌&&◌,
  not, if◌then◌else◌, Option, none, some, List, [], ◌∷◌, Text, codes, drop, length, Result, ok, err,
}
use synxor.Room.Entity.{second_ms}
use synxor.Room.Service.{Signer}
use synxor.Transfer.Http.{TokenRole, TokenClaims, sender_role, receiver_role}

-- A whole number of seconds, before or after now.
pub data Seconds : Type 0 where
  ahead behind : ℕ → Seconds

-- `secondsUntil`, which rounds down.
unfoldable pub seconds_until : ℕ → ℕ → Seconds
seconds_until instant now =
    if leb now instant
    then ahead ((instant - now) / second_ms)
    else behind ((now - instant + (second_ms - 1)) / second_ms)

-- What a verified token says: the claims, and its `sub`.
pub record VerifiedClaims : Type 0 where
  pub claims : TokenClaims
  pub sub : Option ℕ

-- `JwtService` as the modules configure it: `sign` at a time, with the claims, `expiresIn` and
-- `subject`; `verify` at a time, with the algorithm, issuer and audience that the verifier pins.
pub record Jwt : Type 0 where
  pub sign_jwt : ℕ → TokenClaims → Seconds → ℕ → Option Text
  pub verify_jwt : ℕ → Text → Option VerifiedClaims

-- When a token that was signed at `now` expires, in seconds.
abbrev pub expiry : ℕ → Seconds → ℕ
expiry now (ahead n) = now / second_ms + n
expiry now (behind n) = now / second_ms - n

-- What the program relies on: a token that was signed is text, it is verified with what it was
-- signed with while the clock's second is before its expiry, and it is rejected from then on.
pub record IsJwt (jwt : Jwt) : Type 0 where
  pub is_text :
      (now : ℕ) (c : TokenClaims) (s : Seconds) (sub : ℕ) → jwt.sign_jwt now c s sub ≢ some []
  pub accepts :
      (now later : ℕ) (c : TokenClaims) (s : Seconds) (sub : ℕ) (t : Text)
      → jwt.sign_jwt now c s sub ≡ some t
      → later / second_ms < expiry now s
      → jwt.verify_jwt later t ≡ some (record { claims = c; sub = some sub })
  pub expires :
      (now later : ℕ) (c : TokenClaims) (s : Seconds) (sub : ℕ) (t : Text)
      → jwt.sign_jwt now c s sub ≡ some t
      → expiry now s ≤ later / second_ms
      → jwt.verify_jwt later t ≡ none

-- `JwtTokenIssuer.sign`
unfoldable pub sign : Jwt → ℕ → Signer
unfolding seconds_until
sign jwt now room_id role expires_at =
    jwt.sign_jwt now (record { room_id = room_id; role = role }) (seconds_until expires_at now)
      room_id

-- `JwtTokenVerifier.verify`; `none` where it throws.
unfoldable pub verify : Jwt → ℕ → Text → Option TokenClaims
verify jwt now token = elim (jwt.verify_jwt now token) [
  | none ↦ none
  | some v ↦ elim (v.sub) [
    | none ↦ none
    | some sub ↦ if sub == v.claims.room_id then some v.claims else none
  ]
]

-- What the guards read of a request: the `Authorization` header and the `token` of the query.
pub record Request : Type 0 where
  pub authorization : Option Text
  pub query_token : Option Text

abbrev pub starts_with : Text → Text → Bool
starts_with [] t = true
starts_with (c ∷ cs) [] = false
starts_with (c ∷ cs) (d ∷ t) = c == d && starts_with cs t

abbrev pub bearer : Text
bearer = codes "Bearer "

abbrev pub from_query : Option Text → Option Text
from_query none = none
from_query (some []) = none
from_query (some (c ∷ cs)) = some (c ∷ cs)

unfoldable pub extract_token : Request → Option Text
extract_token r = elim (r.authorization) [
  | none ↦ from_query r.query_token
  | some header ↦
      if starts_with bearer header then some (drop 7 header) else from_query r.query_token
]

pub data AuthError : Type 0 where
  missing_token invalid_token : AuthError
  forbidden : Text → AuthError

-- What `canActivate` does with the token that it found: an empty one counts as missing.
unfoldable pub check_token : Jwt → ℕ → Option Text → Result AuthError (TokenClaims × Text)
unfolding verify
check_token jwt now none = err missing_token
check_token jwt now (some []) = err missing_token
check_token jwt now (some (c ∷ cs)) = elim (verify jwt now (c ∷ cs)) [
  | none ↦ err invalid_token
  | some claims ↦ ok (claims, c ∷ cs)
]

-- `RoomTokenGuard.canActivate`, with what it attaches to the request: the claims and the token.
unfoldable pub room_token_guard : Jwt → ℕ → Request → Result AuthError (TokenClaims × Text)
unfolding extract_token check_token
room_token_guard jwt now r = check_token jwt now (extract_token r)

abbrev pub role_same : TokenRole → TokenRole → Bool
role_same sender_role sender_role = true
role_same sender_role receiver_role = false
role_same receiver_role sender_role = false
role_same receiver_role receiver_role = true

-- `RoomRoleGuard.canActivate` with what `RequireRoomRole` set for the route.
unfoldable pub room_role_guard :
    Option (TokenRole × Text) → Option TokenClaims → Result AuthError (Unit {0})
room_role_guard none claims = ok tt
room_role_guard (some (role, message)) none = err (forbidden message)
room_role_guard (some (role, message)) (some claims) =
    if role_same claims.role role then ok tt else err (forbidden message)

-- The guards of a route, one after the other.
unfoldable pub guards :
    Jwt → ℕ → Option (TokenRole × Text) → Request → Result AuthError (TokenClaims × Text)
unfolding room_token_guard room_role_guard
guards jwt now required r = elim (room_token_guard jwt now r) [
  | err e ↦ err e
  | ok (claims, token) ↦ elim (room_role_guard required (some claims)) [
    | err e ↦ err e
    | ok _ ↦ ok (claims, token)
  ]
]
