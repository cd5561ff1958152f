-- ===== src/Room/Gateway/Sockets.antt =====
-- The sockets against the connections and the joins that wait, for apps/api/src/room/room.gateway.ts.
use synxor.Common.{
  ℕ, ◌≡◌, Bool, true, false, Option, none, some, lookup, insert, erase, lookup-insert, lookup-erase,
  nat_eq, Dict, arith,
}
use synxor.Room.Gateway.{ConnectedParticipant, Joining}

-- Of one socket: one that never opened has nothing, one that joins has no connection yet, and one
-- that has a connection is still there.
abbrev pub alive_at : Option Bool → Option Joining → Option ConnectedParticipant → Bool
alive_at none none none = true
alive_at none none (some e) = false
alive_at none (some j) c = false
alive_at (some live) j none = true
alive_at (some live) none (some e) = live
alive_at (some live) (some j) (some e) = false

abbrev pub IsAlive : Dict ℕ Bool → Dict ℕ Joining → Dict ℕ ConnectedParticipant → Type 0
IsAlive s j c = (sid : ℕ) → alive_at (lookup sid s) (lookup sid j) (lookup sid c) ≡ true

module _ (s : Dict ℕ Bool) (j : Dict ℕ Joining) (c : Dict ℕ ConnectedParticipant)
    (a : IsAlive s j c) where
  -- A socket with a connection is there.
  pub IsAlive-live :
      (sid : ℕ) (e : ConnectedParticipant) → lookup sid c ≡ some e → lookup sid s ≡ some true
  IsAlive-live sid e h = ground (arith, a sid, h)

  -- A socket that joins has no connection.
  pub IsAlive-apart : (sid : ℕ) (x : Joining) → lookup sid j ≡ some x → lookup sid c ≡ none
  IsAlive-apart sid x h = ground (arith, a sid, h)

  pub open-IsAlive :
      (sid : ℕ) (x : Joining) → lookup sid s ≡ none → IsAlive (insert sid true s) (insert sid x j) c
  open-IsAlive sid x h k =
      ground (arith, a k, a sid, h, lookup-insert sid k true s, lookup-insert sid k x j)

  pub refuse-IsAlive : (sid : ℕ) → lookup sid s ≡ none → IsAlive (insert sid false s) j c
  refuse-IsAlive sid h k = ground (arith, a k, a sid, h, lookup-insert sid k false s)

  pub drop-IsAlive : (sid : ℕ) → IsAlive (insert sid false s) j (erase sid c)
  drop-IsAlive sid k = ground (arith, a k, lookup-insert sid k false s, lookup-erase sid k c)

  pub end-IsAlive : (sid : ℕ) → (x : Joining) → lookup sid j ≡ some x → IsAlive s (erase sid j) c
  end-IsAlive sid x h k = ground (arith, a k, a sid, h, lookup-erase sid k j)

  -- A join is recorded of a socket that is still there.
  pub join-IsAlive :
      (sid : ℕ) (e : ConnectedParticipant)
      → lookup sid s ≡ some true
      → lookup sid j ≡ none
      → IsAlive s j (insert sid e c)
  join-IsAlive sid e h n k = ground (arith, a k, h, n, lookup-insert sid k e c)

  pub leave-IsAlive : (sid : ℕ) → IsAlive s j (erase sid c)
  leave-IsAlive sid k = ground (arith, a k, lookup-erase sid k c)

  -- A connection that is replaced.
  pub update-IsAlive :
      (sid : ℕ) (e e' : ConnectedParticipant)
      → lookup sid c ≡ some e
      → IsAlive s j (insert sid e' c)
  update-IsAlive sid e e' h k = ground (arith, a k, a sid, h, lookup-insert sid k e' c)

  -- A socket that goes and has no connection.
  pub down-IsAlive : (sid : ℕ) → lookup sid c ≡ none → IsAlive (insert sid false s) j c
  down-IsAlive sid h k = ground (arith, a k, h, lookup-insert sid k false s)

  -- A join that is recorded of a socket that has gone.
  pub missed-IsAlive :
      (sid : ℕ) (e : ConnectedParticipant)
      → lookup sid c ≡ none
      → IsAlive s j (erase sid (insert sid e c))
  missed-IsAlive sid e h k =
      ground (arith, a k, h, lookup-erase sid k (insert sid e c), lookup-insert sid k e c)
