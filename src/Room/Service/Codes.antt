-- ===== src/Room/Service/Codes.antt =====
-- Drawing a Room Code that is free: `createRoomWithUniqueCode` of apps/api/src/room/room.service.ts.
use synxor.Common.{
  ℕ, zero, suc, ◌+◌, ◌≤◌, ◌<◌, ◌≡◌, ◌≢◌, refl, ap, ◌∙◌, ◌==◌, none, Text, text_eq, ok, err, arith,
  Bool-cases, Option-cases, ==_iff, inl, inr,
}
use synxor.Room.Entity.{RoomError, room_code_collision, room_code_exhaustion}
use synxor.Room.Repository.{RoomRepository, room_of, create, find_by_code}
use synxor.Room.Service.{try_codes, create_room_with_unique_code, room_code_max_attempts}

-- A free code gives a Room, a taken one a collision.
create_free :
    (now expires_at : ℕ) (code : Text) (r : RoomRepository)
    → find_by_code code r ≡ none
    → (create now code expires_at r).0 ≡ ok (room_of now r.next_id code expires_at)
unfolding create find_by_code
create_free now expires_at code r free = ground arith

create_taken :
    (now expires_at : ℕ) (code : Text) (r : RoomRepository)
    → find_by_code code r ≢ none
    → create now code expires_at r ≡ (err (room_code_collision code), r)
unfolding create find_by_code
create_taken now expires_at code r taken = ground arith

try_codes_free :
    (codes : ℕ → Text) (now expires_at n i k : ℕ) (r : RoomRepository)
    → i ≤ k
    → k < i + n
    → ((j : ℕ) → i ≤ j → j < k → find_by_code (codes j) r ≢ none)
    → find_by_code (codes k) r ≡ none
    → try_codes codes now expires_at n i r ≡ create now (codes k) expires_at r
unfolding try_codes
try_codes_free codes now expires_at zero i k r low lt taken free = absurd (omega arith)
try_codes_free codes now expires_at (suc n) i k r low lt taken free = elim (Bool-cases (i == k)) [
  | inl e ↦
      let same : i ≡ k = (==_iff i k).0 e in
      rw same (ground (arith, create_free now expires_at (codes k) r free))
  | inr e ↦
      let below : i < k = ground arith in
      ground (
        arith,
        create_taken now expires_at (codes i) r (taken i (omega arith) below),
        try_codes_free codes now expires_at n (suc i) k r below (omega arith)
            (λ j a b. taken j (omega arith) b) free,
      )
]

try_codes_taken :
    (codes : ℕ → Text) (now expires_at n i : ℕ) (r : RoomRepository)
    → ((j : ℕ) → i ≤ j → j < i + n → find_by_code (codes j) r ≢ none)
    → try_codes codes now expires_at n i r ≡ (err (room_code_exhaustion room_code_max_attempts), r)
unfolding try_codes
try_codes_taken codes now expires_at zero i r taken = refl
try_codes_taken codes now expires_at (suc n) i r taken = ground (
  arith,
  create_taken now expires_at (codes i) r (taken i (omega arith) (omega arith)),
  try_codes_taken codes now expires_at n (suc i) r (λ j a b. taken j (omega arith) (omega arith)),
)

-- The Room gets the first of the five drawn codes that is free.
pub create_room_with_unique_code_free :
    (codes : ℕ → Text) (now expires_at k : ℕ) (r : RoomRepository)
    → k < room_code_max_attempts
    → ((j : ℕ) → j < k → find_by_code (codes j) r ≢ none)
    → find_by_code (codes k) r ≡ none
    → (create_room_with_unique_code codes now expires_at r).0
      ≡ ok (room_of now r.next_id (codes k) expires_at)
unfolding create_room_with_unique_code
create_room_with_unique_code_free codes now expires_at k r lt taken free =
    rw
      (try_codes_free codes now expires_at room_code_max_attempts 0 k r (omega arith) (omega arith)
        (λ j a b. taken j b) free)
      (create_free now expires_at (codes k) r free)

-- When all five drawn codes are taken, the call fails and changes nothing.
pub create_room_with_unique_code_exhausted :
    (codes : ℕ → Text) (now expires_at : ℕ) (r : RoomRepository)
    → ((j : ℕ) → j < room_code_max_attempts → find_by_code (codes j) r ≢ none)
    → create_room_with_unique_code codes now expires_at r
      ≡ (err (room_code_exhaustion room_code_max_attempts), r)
unfolding create_room_with_unique_code
create_room_with_unique_code_exhausted codes now expires_at r taken =
    try_codes_taken codes now expires_at room_code_max_attempts 0 r (λ j a b. taken j (omega arith))

-- Drawing gives up only when every drawn code is taken.
pub try_codes_gives_up :
    (codes : ℕ → Text) (now expires_at n i j : ℕ) (r r' : RoomRepository) (e : RoomError)
    → try_codes codes now expires_at n i r ≡ (err e, r')
    → i ≤ j
    → j < i + n
    → find_by_code (codes j) r ≢ none
unfolding try_codes
try_codes_gives_up codes now expires_at zero i j r r' e h low lt free = absurd (omega arith)
try_codes_gives_up codes now expires_at (suc n) i j r r' e h low lt free =
    elim (Bool-cases (i == j)) [
      | inl same ↦
          let at : i ≡ j = (==_iff i j).0 same in
          absurd (
            ground (
              arith,
              h,
              create_free now expires_at (codes i) r (ap (λ k. find_by_code (codes k) r) at ∙ free),
            ))
      | inr other ↦ elim (Option-cases (find_by_code (codes i) r)) [
        | inl none_there ↦
            absurd (ground (arith, h, create_free now expires_at (codes i) r none_there))
        | inr (room, there) ↦
            try_codes_gives_up codes now expires_at n (suc i) j r r' e
              (ground (
                arith,
                h,
                create_taken now expires_at (codes i) r (λ n'. absurd (ground (arith, there, n'))),
              ))
              (ground arith) (omega arith) free
      ]
    ]

pub try_codes_error :
    (codes : ℕ → Text) (now expires_at n i : ℕ) (r r' : RoomRepository) (e : RoomError)
    → try_codes codes now expires_at n i r ≡ (err e, r')
    → e ≡ room_code_exhaustion room_code_max_attempts
unfolding try_codes create
try_codes_error codes now expires_at zero i r r' e h = ground arith
try_codes_error codes now expires_at (suc n) i r r' e h =
    ground (arith, try_codes_error codes now expires_at n (suc i) r r' e)
