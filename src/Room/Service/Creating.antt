-- ===== src/Room/Service/Creating.antt =====
-- Rooms are created under codes that nobody else has, and a Room whose token cannot be signed does
-- not stay.
use synxor.Room.Service.Codes.{try_codes_gives_up, try_codes_error}
use synxor.Common.{
  ℕ, zero, suc, ◌+◌, ◌<◌, ◌≡◌, ◌≢◌, ◌⊎◌, refl, ap, sym, subst, false, ◌==◌, none, some, [], ◌∷◌,
  find, Text, text_beq_iff, Dict, values, lookup, insert, erase, lookup-insert, text_eq, Result, ok,
  err, arith, inl, inr,
}
use synxor.Room.Entity.{
  Room, Expiry, RoomError, room_code_exhaustion, signing_failure, expiry_duration_ms,
}
use synxor.Room.Repository.{RoomRepository, room_of, create, find_by_id, find_by_code, delete}
use synxor.Room.Service.{
  Signer, try_codes, create_room_with_unique_code, room_code_max_attempts, CreateRoomResult,
  create_room, join,
}
use synxor.Transfer.Http.{sender_role, receiver_role}

-- A Room is stored under its code, and its id was drawn already.
abbrev pub Fits : ℕ → Dict Text Room → Type 0
Fits n [] = Unit {0}
Fits n ((k, room) ∷ d) = (k ≡ room.code) × (room.id < n) × Fits n d

pub record IsWellFormed (r : RoomRepository) : Type 0 where
  pub fits : Fits r.next_id r.stored

find-insert_fresh :
    (room : Room) (d : Dict Text Room)
    → Fits room.id d
    → lookup room.code d ≡ none
    → find (λ x. x.id == room.id) (values (insert room.code room d)) ≡ some room
find-insert_fresh room [] h e = ground arith
find-insert_fresh room ((k, x) ∷ d) h e = ground (arith, find-insert_fresh room d h.2)

erase-absent : (code : Text) (d : Dict Text Room) → lookup code d ≡ none → erase code d ≡ d
erase-absent code [] e = refl
erase-absent code ((k, room) ∷ d) e = ground (arith, erase-absent code d)

erase-insert :
    (code : Text) (room : Room) (d : Dict Text Room)
    → lookup code d ≡ none
    → erase code (insert code room d) ≡ d
erase-insert code room [] e = ground (arith, text_beq_iff code code)
erase-insert code room ((k, x) ∷ d) e = ground (arith, erase-insert code room d)

-- What a successful creation stores, whichever attempt succeeded.
record IsCreated (now expires_at : ℕ) (r : RoomRepository) (room : Room) (r' : RoomRepository)
    : Type 0 where
  unused : lookup room.code r.stored ≡ none
  made : room ≡ room_of now r.next_id room.code expires_at
  stored : r'.stored ≡ insert room.code room r.stored

create-IsCreated :
    (now expires_at : ℕ) (code : Text) (r r' : RoomRepository) (room : Room)
    → create now code expires_at r ≡ (ok room, r')
    → IsCreated now expires_at r room r'
unfolding create find_by_code
create-IsCreated now expires_at code r r' room e = ground arith

try_codes-IsCreated :
    (codes : ℕ → Text) (now expires_at n i : ℕ) (r r' : RoomRepository) (room : Room)
    → try_codes codes now expires_at n i r ≡ (ok room, r')
    → IsCreated now expires_at r room r'
unfolding try_codes
try_codes-IsCreated codes now expires_at zero i r r' room e = absurd (ground arith)
try_codes-IsCreated codes now expires_at (suc n) i r r' room e = ground (
  arith,
  create-IsCreated now expires_at (codes i) r r' room,
  try_codes-IsCreated codes now expires_at n (suc i) r r' room,
)

create-keeps :
    (now expires_at : ℕ) (code : Text) (r r' : RoomRepository) (e : RoomError)
    → create now code expires_at r ≡ (err e, r')
    → r' ≡ r
unfolding create
create-keeps now expires_at code r r' e h = ground arith

try_codes-keeps :
    (codes : ℕ → Text) (now expires_at n i : ℕ) (r r' : RoomRepository) (e : RoomError)
    → try_codes codes now expires_at n i r ≡ (err e, r')
    → r' ≡ r
unfolding try_codes
try_codes-keeps codes now expires_at zero i r r' e h = ground arith
try_codes-keeps codes now expires_at (suc n) i r r' e h = ground (
  arith,
  create-keeps now expires_at (codes i) r r' e,
  try_codes-keeps codes now expires_at n (suc i) r r' e,
)

find_by_id-insert :
    (room : Room) (now expires_at : ℕ) (r r' : RoomRepository)
    → IsWellFormed r
    → IsCreated now expires_at r room r'
    → find_by_id room.id r' ≡ some room
unfolding find_by_id
find_by_id-insert room now expires_at r r' fit c = rw c.stored (
    find-insert_fresh room r.stored
      (subst (λ n. Fits n r.stored) (sym (ap (λ (x : Room). x.id) c.made)) fit.fits) c.unused)

delete-created :
    (room : Room) (now expires_at : ℕ) (r r' : RoomRepository)
    → IsWellFormed r
    → IsCreated now expires_at r room r'
    → (delete room.id r').stored ≡ r.stored
unfolding delete
delete-created room now expires_at r r' fit c =
    rw (find_by_id-insert room now expires_at r r' fit c, delete, c.stored)
      (erase-insert room.code room r.stored c.unused)

-- Drawing a code fails and changes nothing, or creates a Room.
unique_code_cases :
    (codes : ℕ → Text) (now expires_at : ℕ) (r : RoomRepository)
    → ((e : RoomError) × (create_room_with_unique_code codes now expires_at r ≡ (err e, r)))
      ⊎ ((room : Room) × (r' : RoomRepository) × (create_room_with_unique_code codes now expires_at
              r
            ≡ (ok room, r'))
          × IsCreated now expires_at r room r')
unfolding create_room_with_unique_code
unique_code_cases codes now expires_at r =
    go (try_codes codes now expires_at room_code_max_attempts 0 r) refl
  where
    go :
        (x : Result RoomError Room × RoomRepository)
        → try_codes codes now expires_at room_code_max_attempts 0 r ≡ x
        → ((e : RoomError) × (x ≡ (err e, r)))
          ⊎ ((room : Room) × (r' : RoomRepository) × (x ≡ (ok room, r'))
              × IsCreated now expires_at r room r')
    go (err e, r') h = inl (
      e,
      ap (λ (q : RoomRepository). (err e, q))
          (try_codes-keeps codes now expires_at room_code_max_attempts 0 r r' e h),
    )
    go (ok room, r') h = inr (
      room,
      r',
      refl,
      try_codes-IsCreated codes now expires_at room_code_max_attempts 0 r r' room h,
    )

module _ (codes : ℕ → Text) (sign : Signer) (now : ℕ) (expiry : Expiry) (r : RoomRepository) where
  -- Where Rooms are stored under their codes and with ids drawn before, and the cleanup works, a
  -- creation that fails leaves the stored Rooms as they were, and it fails for one of two reasons:
  -- all five drawn codes were taken, or some code was free and the Sender's token for the Room's
  -- id could not be signed.
  pub create_room_fails :
      (e : RoomError)
      → IsWellFormed r
      → (create_room codes sign false now expiry r).0 ≡ err e
      → ((create_room codes sign false now expiry r).1.stored ≡ r.stored)
        × (((e ≡ room_code_exhaustion room_code_max_attempts)
              × ((j : ℕ) → j < room_code_max_attempts → find_by_code (codes j) r ≢ none))
            ⊎ ((e ≡ signing_failure)
                × ((code : Text) × (find_by_code code r ≡ none))
                × (sign r.next_id sender_role (now + expiry_duration_ms expiry) ≡ none)))
  unfolding create_room create_room_with_unique_code find_by_code
  create_room_fails e fit h =
      let expires_at = now + expiry_duration_ms expiry in
      elim (unique_code_cases codes now expires_at r) [
        | inl (e', failed) ↦
            let tried : try_codes codes now expires_at room_code_max_attempts 0 r ≡ (err e', r) =
              failed in
            let why = try_codes_error codes now expires_at room_code_max_attempts 0 r r e' tried in
            (
              ground (arith, failed),
              inl (
                ground (arith, failed, h, why),
                λ j lt.
                    try_codes_gives_up codes now expires_at room_code_max_attempts 0 j r r e' tried
                      (omega arith) (omega arith),
              ),
            )
        | inr (room, r', made, c) ↦ (
          ground (arith, made, h, delete-created room now expires_at r r' fit c),
          inr (ground (arith, made, h), (room.code, c.unused), ground (arith, made, h, c.made)),
        )
      ]

  -- When a creation succeeded, whoever joins by the new Room's code before its expiry, with a
  -- token that can be signed, gets that Receiver's token and the Room's id.
  pub join-create_room :
      (result : CreateRoomResult) (r' : RoomRepository) (later : ℕ) (token : Text)
      → create_room codes sign false now expiry r ≡ (ok result, r')
      → later < now + expiry_duration_ms expiry
      → sign r.next_id receiver_role (now + expiry_duration_ms expiry) ≡ some token
      → join sign later result.room_code r'
        ≡ ok (record { room_token = token; room_id = r.next_id })
  unfolding create_room join find_by_code
  join-create_room result r' later token h early signed =
      elim (unique_code_cases codes now (now + expiry_duration_ms expiry) r) [
        | inl (e', failed) ↦ absurd (ground (arith, failed, h))
        | inr (room, r'', made, c) ↦ ground (
          arith,
          made,
          h,
          c,
          lookup-insert room.code room.code room r.stored,
          text_beq_iff room.code room.code,
        )
      ]
