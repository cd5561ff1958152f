-- ===== src/Room/World.antt =====
-- Everything the API keeps: the Rooms and the Deliveries beside the state of the upload service.
use synxor.Room.Repository.{RoomRepository}
use synxor.Transfer.Delivery.{DeliveryRepository}
use synxor.Transfer.Upload.State.{Api}

pub record World : Type 0 where
  pub api : Api
  pub open api use *
  pub rooms : RoomRepository
  pub deliveries : DeliveryRepository
