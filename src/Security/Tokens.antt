-- ===== src/Security/Tokens.antt =====
-- A Room Token from the service that signs it to the guard or the gateway that verifies it.
use synxor.Common.{
  ℕ, length, drop, ◌++◌, ◌⊎◌, inl, inr, codes, ==_iff, ◌+◌, ◌*◌, ◌<◌, ◌≤◌, ◌≡◌, ◌≢◌, refl, sym, ap,
  subst, ◌∙◌, Bool, true, if-split, option-split, result-split, Option, none, some, [], ◌∷◌, Text,
  text_eq, Result, ok, arith,
}
use synxor.Room.Entity.{Room, RoomError, second_ms, is_expired, status_beq, closed}
use synxor.Room.Gateway.{authenticate}
use synxor.Room.Repository.{RoomRepository, find_by_code}
use synxor.Room.Service.{JoinRoomResult, join}
use synxor.Security.{
  seconds_until, Jwt, IsJwt, expiry, sign, verify, Request, extract_token, check_token, AuthError,
  bearer, starts_with, from_query, room_token_guard, room_role_guard, role_same, guards,
}
use synxor.Transfer.Http.{TokenRole, TokenClaims, receiver_role}

-- When a token expires that was signed for an instant that has not passed.
expiry-seconds_until :
    (instant now : ℕ)
    → now ≤ instant
    → let e = expiry now (seconds_until instant now) in
      (e * second_ms ≤ instant) × (instant < e * second_ms + 2 * second_ms)
unfolding seconds_until
expiry-seconds_until instant now le = ground arith

module _ (jwt : Jwt) (j : IsJwt jwt) (now later room_id expires_at : ℕ) (role : TokenRole)
    (token : Text) (signed : sign jwt now room_id role expires_at ≡ some token)
    (before : now ≤ expires_at) where
  -- A Room Token that is signed before its Room expires is verified with the Room and the role that it
  -- was signed for until two seconds before the Room's expiry at least, and from the expiry on it is
  -- rejected.
  pub verify-sign :
      (later + 2 * second_ms ≤ expires_at
        → verify jwt later token ≡ some (record { room_id = room_id; role = role }))
      × (expires_at ≤ later → verify jwt later token ≡ none)
  unfolding sign verify
  verify-sign =
      let c : TokenClaims = record { room_id = room_id; role = role } in
      let s = seconds_until expires_at now in
      let near = expiry-seconds_until expires_at now before in
      (
        λ h. ground (arith, j.accepts now later c s room_id token signed (omega (arith, h, near))),
        λ h. ground (arith, j.expires now later c s room_id token signed (omega (arith, h, near))),
      )

authenticate_text :
    (f : Text → Option TokenClaims) (t : Text)
    → t ≢ []
    → authenticate f (some t) ≡ (elim (f t) [ none ↦ none | some c ↦ some (t, c) ])
unfolding authenticate
authenticate_text f [] n = absurd (n refl)
authenticate_text f (c ∷ cs) n = refl

-- What happens where one joins a Room: the token that the service hands out opens the socket.
module _ (jwt : Jwt) (j : IsJwt jwt) (now later : ℕ) (code : Text) (rooms : RoomRepository)
    (result : JoinRoomResult) (joined : join (sign jwt now) now code rooms ≡ ok result) where
  join-signed :
      (room : Room) × (find_by_code code rooms ≡ some room)
      × (result.room_id ≡ room.id)
      × (sign jwt now room.id receiver_role room.expires_at ≡ some result.room_token)
      × (now ≤ room.expires_at)
  unfolding join is_expired
  join-signed =
      let Q : Result RoomError JoinRoomResult → Type 0 = λ x.
        x ≡ ok result
        → (room : Room) × (find_by_code code rooms ≡ some room)
          × (result.room_id ≡ room.id)
          × (sign jwt now room.id receiver_role room.expires_at ≡ some result.room_token)
          × (now ≤ room.expires_at) in
      option-split Q (find_by_code code rooms) (λ _ d. absurd cc)
        (λ room found.
          if-split Q (status_beq room.status closed) (λ _ d. absurd cc)
            (λ _.
              if-split Q (is_expired room now) (λ _ d. absurd cc)
                (λ fresh.
                  option-split Q (sign jwt now room.id receiver_role room.expires_at)
                    (λ _ d. absurd cc)
                    (λ token signed d. (
                      room,
                      found,
                      ground (arith, d),
                      ground (arith, d, signed),
                      ground (arith, fresh),
                    )))))
        joined

  module _ (room : Room) (found : find_by_code code rooms ≡ some room) where
    join-verified :
        (result.room_token ≢ [])
        × (later + 2 * second_ms ≤ room.expires_at
            → verify jwt later result.room_token
              ≡ some (record { room_id = result.room_id; role = receiver_role }))
        × (room.expires_at ≤ later → verify jwt later result.room_token ≡ none)
    unfolding sign
    join-verified =
        let (_, found', own, signed, before) = join-signed in
        let same : join-signed.0 ≡ room = ground (arith, found, found') in
        let v =
          verify-sign jwt j now later join-signed.0.id join-signed.0.expires_at receiver_role
            result.room_token signed before in
        (
          λ e.
              j.is_text now (record { room_id = join-signed.0.id; role = receiver_role })
                (seconds_until join-signed.0.expires_at now) join-signed.0.id
                (signed ∙ ap (λ t. some t) e),
          λ h.
              ground
                (arith, own, v.0 (subst (λ r. later + 2 * second_ms ≤ r.expires_at) (sym same) h)),
          λ h. v.1 (subst (λ r. r.expires_at ≤ later) (sym same) h),
        )

    -- Whoever joined a Room by its code is let in by the gateway with the token they got, as a
    -- Receiver of that Room, until two seconds before its expiry at least.
    pub authenticate-join :
        later + 2 * second_ms ≤ room.expires_at
        → authenticate (verify jwt later) (some result.room_token)
          ≡ some (result.room_token, record { room_id = result.room_id; role = receiver_role })
    authenticate-join h =
        let (full, accepted, _) = join-verified in
        ground (arith, authenticate_text (verify jwt later) result.room_token full, accepted h)

    -- From the expiry of the Room on, whoever joined it is not let in by the gateway with the token
    -- they got.
    pub authenticate-expired :
        room.expires_at ≤ later → authenticate (verify jwt later) (some result.room_token) ≡ none
    authenticate-expired h =
        let (full, _, rejected) = join-verified in
        ground (arith, authenticate_text (verify jwt later) result.room_token full, rejected h)

-- The request carries the token: after `Bearer ` in its header, or in its query where the header does
-- not begin so.
abbrev pub IsCarried : Request → Text → Type 0
IsCarried r token =
    (r.authorization ≡ some (codes "Bearer " ++ token))
    ⊎ (((t : Text) → r.authorization ≢ some (codes "Bearer " ++ t)) × (r.query_token ≡ some token))

starts_with-split : (p t : Text) → starts_with p t ≡ true → t ≡ p ++ drop (length p) t
starts_with-split [] t h = refl
starts_with-split (c ∷ p) [] h = absurd cc
starts_with-split (c ∷ p) (d ∷ t) h =
    ground (arith, ==_iff c d, starts_with-split p t (ground (arith, h)))

starts_with-append : (p t : Text) → starts_with p (p ++ t) ≡ true
starts_with-append [] t = refl
starts_with-append (c ∷ p) t = ground (arith, starts_with-append p t)

from_query-some : (q : Option Text) (t : Text) → from_query q ≡ some t → q ≡ some t
from_query-some none t h = absurd cc
from_query-some (some []) t h = absurd cc
from_query-some (some (c ∷ cs)) t h = h

extract_token-IsCarried :
    (r : Request) (token : Text) → extract_token r ≡ some token → IsCarried r token
unfolding extract_token
extract_token-IsCarried r token =
    let Q : Option Text → Type 0 = λ x. x ≡ some token → IsCarried r token in
    option-split Q r.authorization
      (λ absent d.
        inr (λ t e. absurd (ground (arith, absent, e)), from_query-some r.query_token token d))
      (λ header there.
        if-split Q (starts_with bearer header)
          (λ b d.
            let whole : header ≡ bearer ++ drop 7 header = starts_with-split bearer header b in
            let cut : drop 7 header ≡ token = ground (arith, d) in
            inl (there ∙ ap (λ t. some t) (whole ∙ ap (λ t. bearer ++ t) cut)))
          (λ b d. inr (
            λ t e.
                let same : header ≡ bearer ++ t = ground (arith, there, e) in
                absurd (
                  ground
                    (arith, b, starts_with-append bearer t, ap (λ x. starts_with bearer x) same)),
            from_query-some r.query_token token d,
          )))

abbrev passes : TokenClaims × Text → Result AuthError (TokenClaims × Text)
passes x = ok x

ok_injective : (x y : TokenClaims × Text) → passes x ≡ passes y → x ≡ y
ok_injective x y h = cc

check_token_lem :
    (jwt : Jwt) (now : ℕ) (claims : TokenClaims) (token : Text) (o : Option Text)
    → check_token jwt now o ≡ ok (claims, token)
    → (verify jwt now token ≡ some claims) × (token ≢ []) × (o ≡ some token)
unfolding check_token
check_token_lem jwt now claims token none h = absurd cc
check_token_lem jwt now claims token (some []) h = absurd cc
check_token_lem jwt now claims token (some (c ∷ cs)) h =
    let Q : Result AuthError (TokenClaims × Text) → Type 0 = λ x.
      x ≡ ok (claims, token)
      → (verify jwt now token ≡ some claims) × (token ≢ []) × (some (c ∷ cs) ≡ some token) in
    option-split Q (verify jwt now (c ∷ cs)) (λ _ d. absurd cc)
      (λ found v d.
        let e : (found, c ∷ cs) ≡ (claims, token) = ok_injective _ _ d in
        (
          subst (λ (x : TokenClaims × Text). verify jwt now x.1 ≡ some x.0) e v,
          subst (λ (x : TokenClaims × Text). x.1 ≢ []) e (λ n. absurd cc),
          ap (λ (x : TokenClaims × Text). some x.1) e,
        ))
      h

abbrev pub role_fits : Option (TokenRole × Text) → TokenClaims → Bool
role_fits none claims = true
role_fits (some (role, message)) claims = role_same claims.role role

room_role_guard_fits :
    (required : Option (TokenRole × Text)) (claims : TokenClaims)
    → room_role_guard required (some claims) ≡ ok tt
    → role_fits required claims ≡ true
unfolding room_role_guard
room_role_guard_fits none claims h = refl
room_role_guard_fits (some (role, message)) claims h = ground (arith, h)

-- A request that passes the guards carries a token that the verifier takes, with these claims, of the
-- role that the route asks for, if it asks for one; the token is not empty, and it is the header's
-- where that begins with `Bearer `, and else the query's.
pub guards_lem :
    (jwt : Jwt) (now : ℕ) (required : Option (TokenRole × Text)) (r : Request)
    (claims : TokenClaims) (token : Text)
    → guards jwt now required r ≡ ok (claims, token)
    → (verify jwt now token ≡ some claims)
      × (token ≢ [])
      × IsCarried r token
      × (role_fits required claims ≡ true)
unfolding guards
guards_lem jwt now required r claims token passed =
    let Q : Result AuthError (TokenClaims × Text) → Type 0 = λ x.
      x ≡ ok (claims, token)
      → (verify jwt now token ≡ some claims)
        × (token ≢ [])
        × IsCarried r token
        × (role_fits required claims ≡ true) in
    result-split Q (room_token_guard jwt now r) (λ _ _ d. absurd cc)
      (λ x h.
        result-split Q (room_role_guard required (some x.0)) (λ _ _ d. absurd cc)
          (λ _ allowed d.
            let e : x ≡ (claims, token) = ok_injective _ _ d in
            let checked =
              check_token_lem jwt now claims token (extract_token r) (h ∙ ap passes e) in
            (
              checked.0,
              checked.1,
              extract_token-IsCarried r token checked.2,
              ap (λ y. role_fits required y.0) (sym e) ∙ room_role_guard_fits required x.0 allowed,
            )))
      passed
