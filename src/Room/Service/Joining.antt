-- ===== src/Room/Service/Joining.antt =====
-- Who may join a Room.
use synxor.Common.{
  ◌⊎◌, refl, subst, Bool-cases, ℕ, ◌<◌, ◌≡◌, ◌≢◌, ◌↔◌, true, none, some, Text, ok, err, arith,
  Option-cases, inl, inr,
}
use synxor.Room.Entity.{
  Room, RoomStatus, active, closed, expired, is_expired, RoomError, room_not_found, signing_failure,
  room_expired, room_closed,
}
use synxor.Room.Repository.{RoomRepository, find_by_code}
use synxor.Room.Service.{Signer, JoinRoomResult, join}
use synxor.Transfer.Http.{receiver_role}

-- The code names a Room that is active and not past its expiry, and the result has its id and a
-- Receiver's token for it.
pub record Admits (sign : Signer) (now : ℕ) (code : Text) (r : RoomRepository)
    (result : JoinRoomResult) : Type 0 where
  pub room : Room
  pub found : find_by_code code r ≡ some room
  pub open_for_joining : room.status ≡ active
  pub in_time : now < room.expires_at
  pub same_room : result.room_id ≡ room.id
  pub signed : sign room.id receiver_role room.expires_at ≡ some result.room_token

-- Why a join is refused.
pub data Refuses (sign : Signer) (now : ℕ) (code : Text) (r : RoomRepository)
    : RoomError → Type 0 where
  unknown : find_by_code code r ≡ none → Refuses sign now code r (room_not_found code)
  was_closed :
      (room : Room)
      → find_by_code code r ≡ some room
      → room.status ≡ closed
      → Refuses sign now code r (room_closed code)
  has_expired :
      (room : Room)
      → find_by_code code r ≡ some room
      → room.status ≢ closed
      → is_expired room now ≡ true
      → Refuses sign now code r (room_expired code)
  unsigned :
      (room : Room)
      → find_by_code code r ≡ some room
      → room.status ≡ active
      → now < room.expires_at
      → sign room.id receiver_role room.expires_at ≡ none
      → Refuses sign now code r signing_failure

status_cases : (s : RoomStatus) → (s ≡ closed) ⊎ (s ≢ closed)
status_cases active = inr λ h. absurd (ground arith)
status_cases closed = inl refl
status_cases expired = inr λ h. absurd (ground arith)

module _ (sign : Signer) (now : ℕ) (code : Text) (r : RoomRepository) where
  join-Admits :
      (result : JoinRoomResult) → join sign now code r ≡ ok result → Admits sign now code r result
  unfolding join
  join-Admits result h = elim (Option-cases (find_by_code code r)) [
    | inl e ↦ absurd (ground (arith, e, h))
    | inr (x, e) ↦ record {
      room = x;
      found = e;
      open_for_joining = ground (arith, e, h);
      in_time = ground (arith, e, h);
      same_room = ground (arith, e, h);
      signed = ground (arith, e, h);
    }
  ]

  -- A join succeeds with a result exactly when the code names a Room that is active and before
  -- its expiry, the result has that Room's id, and its token is the one that signing yields for a
  -- Receiver.
  pub join_iff :
      (result : JoinRoomResult) → (join sign now code r ≡ ok result) ↔ Admits sign now code r result
  unfolding join
  join_iff result = (
    join-Admits result,
    λ a. ground (arith, a.found, a.open_for_joining, a.in_time, a.same_room, a.signed),
  )

  Refuses-join : (e : RoomError) → Refuses sign now code r e → join sign now code r ≡ err e
  unfolding join
  Refuses-join _ (unknown h) = ground arith
  Refuses-join _ (was_closed room h s) = ground arith
  Refuses-join _ (has_expired room h s x) = ground arith
  Refuses-join _ (unsigned room h s lt n) = ground arith

  refuses : (e e' : RoomError) → e' ≡ e → Refuses sign now code r e' → Refuses sign now code r e
  refuses e e' h p = subst (Refuses sign now code r) h p

  join-Refuses : (e : RoomError) → join sign now code r ≡ err e → Refuses sign now code r e
  unfolding join
  join-Refuses e h = elim (Option-cases (find_by_code code r)) [
    | inl f ↦ refuses e (room_not_found code) (ground arith) (unknown f)
    | inr (x, f) ↦ elim (status_cases x.status) [
      | inl c ↦ refuses e (room_closed code) (ground arith) (was_closed x f c)
      | inr c ↦ elim (Bool-cases (is_expired x now)) [
        | inl p ↦ refuses e (room_expired code) (ground arith) (has_expired x f c p)
        | inr p ↦
            refuses e signing_failure (ground arith)
              (unsigned x f (ground arith) (ground arith) (ground arith))
      ]
    ]
  ]

  -- The reason for a refusal, by the Room that has the code: there is none, it was closed, its time
  -- or its status says that it expired, or signing failed.
  pub join_refusals : (e : RoomError) → (join sign now code r ≡ err e) ↔ Refuses sign now code r e
  unfolding join
  join_refusals e = (join-Refuses e, Refuses-join e)
