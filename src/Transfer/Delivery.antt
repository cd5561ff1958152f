-- ===== src/Transfer/Delivery.antt =====
-- Deliveries: apps/api/src/infrastructure/persistence/repositories/prisma-delivery.repository.ts,
-- whose table has a unique transfer id (apps/api/prisma/schema.prisma), and the service of
-- apps/api/src/transfer/transfer-delivery.service.ts. The time and a failure of the database are
-- arguments.
pub mod Once
use synxor.Common.{
  ℕ, ◌+◌, Bool, true, false, if◌then◌else◌, Option, none, some, List, [], ◌∷◌, ◌++◌, has, filter,
  Dict, values, lookup, insert, Result, ok, err, nat_eq,
}
use synxor.Room.Events.{Emission, everyone, delivered}

pub record Delivery : Type 0 where
  pub id : ℕ
  pub transfer_id : ℕ
  pub delivered_at : ℕ
  pub created_at : ℕ

-- The rows by the transfer id, which is unique.
pub record DeliveryRepository : Type 0 where
  pub rows : Dict ℕ Delivery
  pub next_id : ℕ

pub data DeliveryError : Type 0 where
  duplicate_delivery : ℕ → DeliveryError
  database_failure : DeliveryError

abbrev pub delivery_of : ℕ → ℕ → ℕ → Delivery
delivery_of now id transfer_id = record {
  id = id;
  transfer_id = transfer_id;
  delivered_at = now;
  created_at = now;
}

-- A violation of the unique constraint becomes `DuplicateDeliveryError`.
unfoldable pub create :
    Bool → ℕ → ℕ → DeliveryRepository → Result DeliveryError Delivery × DeliveryRepository
create fails now transfer_id r =
    if fails then (err database_failure, r) else elim (lookup transfer_id r.rows) [
      | some row ↦ (err (duplicate_delivery transfer_id), r)
      | none ↦
          let row = delivery_of now r.next_id transfer_id in
          (ok row, record r { rows = insert transfer_id row r.rows; next_id = r.next_id + 1 })
    ]

unfoldable pub find_by_transfer_id : ℕ → DeliveryRepository → Option Delivery
find_by_transfer_id transfer_id r = lookup transfer_id r.rows

unfoldable pub find_by_transfer_ids : List ℕ → DeliveryRepository → List Delivery
find_by_transfer_ids ids r = filter (λ d. has d.transfer_id ids) (values r.rows)

-- `confirmDelivered`: the result, the rows and what is broadcast. A duplicate ends the call with
-- no announcement.
unfoldable pub confirm_delivered :
    Bool
    → ℕ
    → ℕ
    → ℕ
    → DeliveryRepository
    → Result DeliveryError (Unit {0}) × DeliveryRepository × List Emission
unfolding create
confirm_delivered fails now transfer_id room r =
    let (created, r') = create fails now transfer_id r in
    elim created [
      | ok row ↦ (ok tt, r', record { to = everyone room; event = delivered transfer_id } ∷ [])
      | err e ↦ elim e [ duplicate_delivery t ↦ (ok tt, r', []) | other ↦ (err other, r', []) ]
    ]
