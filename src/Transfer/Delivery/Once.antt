-- ===== src/Transfer/Delivery/Once.antt =====
-- A delivery is recorded and announced once, however often a Transfer is downloaded.
use synxor.Common.{
  ℕ, ◌+◌, ◌-◌, ◌≤◌, not, ◌&&◌, any, ◌≡◌, refl, Bool, false, ◌==◌, if◌then◌else◌, none, some, List,
  [], ◌∷◌, ◌++◌, length, filter, lookup-insert, arith, nat_eq,
}
use synxor.Room.Events.{Emission, delivered}
use synxor.Transfer.Delivery.{
  delivery_of, DeliveryRepository, find_by_transfer_id, confirm_delivered,
}

-- A finished download: the Transfer, its Room, the time, and whether the database fails then.
pub record Download : Type 0 where
  pub transfer_id : ℕ
  pub room_id : ℕ
  pub at : ℕ
  pub fails : Bool

-- The rows and the broadcasts after a history of finished downloads.
pub confirm_all : List Download → DeliveryRepository → DeliveryRepository × List Emission
confirm_all [] r = (r, [])
confirm_all (d ∷ ds) r =
    let (_, r', sent) = confirm_delivered d.fails d.at d.transfer_id d.room_id r in
    let (r'', later) = confirm_all ds r' in (r'', sent ++ later)

-- How often a Transfer is announced as delivered.
abbrev is_announced : ℕ → Emission → Bool
is_announced t e = elim (e.event) [ delivered u ↦ u == t | _ ↦ false ]

pub announcements : ℕ → List Emission → ℕ
announcements t es = length (filter (is_announced t) es)

is_recorded : ℕ → DeliveryRepository → ℕ
is_recorded t r = elim (find_by_transfer_id t r) [ none ↦ 0 | some d ↦ 1 ]

announcements-append :
    (t : ℕ) (es fs : List Emission)
    → announcements t (es ++ fs) ≡ announcements t es + announcements t fs
unfolding announcements
announcements-append t [] fs = omega arith
announcements-append t (e ∷ es) fs = ground (arith, announcements-append t es fs)

announcements-nil : (t : ℕ) → announcements t [] ≡ 0
unfolding announcements
announcements-nil t = refl

-- A finished download of the Transfer at a time when the database works.
abbrev pub counts : ℕ → Download → Bool
counts t d = d.transfer_id == t && not d.fails

is_recorded-le : (t : ℕ) (r : DeliveryRepository) → is_recorded t r ≤ 1
unfolding is_recorded
is_recorded-le t r = ground arith

-- One call records the Transfer if it was not recorded, and announces it just then.
confirm_delivered_step :
    (d : Download) (t : ℕ) (r : DeliveryRepository)
    → let (_, r', sent) = confirm_delivered d.fails d.at d.transfer_id d.room_id r in
      (is_recorded t r' ≡ (if counts t d then 1 else is_recorded t r))
      × (announcements t sent ≡ (if counts t d then 1 - is_recorded t r else 0))
unfolding confirm_delivered is_recorded announcements find_by_transfer_id
confirm_delivered_step d t r =
    ground (arith, lookup-insert d.transfer_id t (delivery_of d.at r.next_id d.transfer_id) r.rows)

confirm_all_lem :
    (t : ℕ) (ds : List Download) (r : DeliveryRepository)
    → announcements t (confirm_all ds r).1 ≡ (if any (counts t) ds then 1 - is_recorded t r else 0)
unfolding confirm_all
confirm_all_lem t [] r = announcements-nil t
confirm_all_lem t (d ∷ ds) r =
    let r' = (confirm_delivered d.fails d.at d.transfer_id d.room_id r).1 in
    let sent = (confirm_delivered d.fails d.at d.transfer_id d.room_id r).2 in
    ground (
      arith,
      confirm_delivered_step d t r,
      confirm_all_lem t ds r',
      is_recorded-le t r,
      announcements-append t sent (confirm_all ds r').1,
    )

-- Over any history of finished downloads, a Transfer that has no Delivery at its start is
-- announced once if one of its downloads finishes while the database works, and never otherwise.
pub confirm_all_once :
    (t : ℕ) (ds : List Download) (r : DeliveryRepository)
    → find_by_transfer_id t r ≡ none
    → announcements t (confirm_all ds r).1 ≡ (if any (counts t) ds then 1 else 0)
unfolding is_recorded
confirm_all_once t ds r h = ground (arith, confirm_all_lem t ds r)
