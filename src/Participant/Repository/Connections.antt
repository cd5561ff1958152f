-- ===== src/Participant/Repository/Connections.antt =====
-- Who is connected.
use synxor.Common.{
  ℕ, ◌≡◌, refl, ◌&&◌, ◌==◌, Option, [], ◌∷◌, length, filter, Dict, values, arith, nat_eq,
}
use synxor.Participant.Entity.{ParticipantRole, Participant}
use synxor.Participant.Repository.{
  ParticipantRepository, is_connected, role_fits, disconnect_rows, mark_all_disconnected,
  count_connected,
}

disconnect_rows-count :
    (at : ℕ) (d : Dict ℕ Participant)
    → (disconnect_rows at d).1 ≡ length (filter is_connected (values d))
unfolding disconnect_rows
disconnect_rows-count at [] = refl
disconnect_rows-count at ((k, x) ∷ d) = ground (arith, disconnect_rows-count at d)

disconnect_rows-none :
    (at room : ℕ) (role : Option ParticipantRole) (d : Dict ℕ Participant)
    → length (
        filter
          (λ p. p.room_id == room && is_connected p && role_fits role p)
          (values (disconnect_rows at d).0))
      ≡ 0
unfolding disconnect_rows
disconnect_rows-none at room role [] = refl
disconnect_rows-none at room role ((k, x) ∷ d) = ground (arith, disconnect_rows-none at room role d)

-- When the process starts it marks everyone as disconnected: it reports as many as were connected
-- anywhere, and afterwards no Room has a connected Participant, of either role.
pub mark_all_disconnected_lem :
    (at room : ℕ) (role : Option ParticipantRole) (r : ParticipantRepository)
    → let (count, r') = mark_all_disconnected at r in
      (count ≡ length (filter is_connected (values r.stored))) × (count_connected room role r' ≡ 0)
unfolding mark_all_disconnected count_connected
mark_all_disconnected_lem at room role r =
    (disconnect_rows-count at r.stored, disconnect_rows-none at room role r.stored)
