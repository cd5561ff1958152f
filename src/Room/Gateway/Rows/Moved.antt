-- ===== src/Room/Gateway/Rows/Moved.antt =====
-- apps/api/src/room/room.gateway.ts: Participants that go from one of the gateway's lists to another,
-- with their rows as they are.
use synxor.Common.{
  ℕ, ◌+◌, ◌≡◌, Bool, none, some, List, [], ◌∷◌, ◌++◌, All, Dict, values, lookup, insert, erase,
  IsKeyed, insert-IsKeyed, nat_eq, count, count-insert_fresh, count-erase, All-insert, All-erase,
  All-lookup, arith,
}
use synxor.Participant.Repository.{ParticipantRepository}
use synxor.Room.Gateway.{ConnectedParticipant, is_of, find_leaving, remove_leaving}
use synxor.Room.Gateway.Rows.{
  count-remove_leaving, All-find_leaving, All-remove_leaving, holders, is_at, Agrees, IsBooked,
}

count-append :
    (q : ConnectedParticipant → Bool) (a b : List ConnectedParticipant)
    → count q (a ++ b) ≡ count q a + count q b
count-append q [] b = omega arith
count-append q (x ∷ a) b = ground (arith, count-append q a b)

All-append :
    (P : ConnectedParticipant → Type 0) (a b : List ConnectedParticipant)
    → All P a
    → All P b
    → All P (a ++ b)
All-append P [] b h k = k
All-append P (x ∷ a) b h k = (h.0, All-append P a b h.1 k)

All-parts :
    (P : ConnectedParticipant → Type 0) (a b : List ConnectedParticipant)
    → All P (a ++ b)
    → All P a × All P b
All-parts P [] b h = (tt, h)
All-parts P (x ∷ a) b h = let (k, l) = All-parts P a b h.1 in ((h.0, k), l)

-- Who has a row without a connection: leaves that wait, rows that stayed, and joins that wait.
abbrev pub pending :
    List ConnectedParticipant
    → List ConnectedParticipant
    → Dict ℕ ConnectedParticipant
    → List ConnectedParticipant
pending l s d = l ++ (s ++ values d)

-- The same Participants, in another order.
pub record IsMoved (a b : List ConnectedParticipant) : Type 1 where
  pub counts : (q : ConnectedParticipant → Bool) → count q a ≡ count q b
  pub alls : (P : ConnectedParticipant → Type 0) → All P a → All P b

pub count-pending :
    (q : ConnectedParticipant → Bool) (l s : List ConnectedParticipant)
    (d : Dict ℕ ConnectedParticipant)
    → count q (pending l s d) ≡ count q l + count q s + count q (values d)
count-pending q l s d =
    ground (arith, count-append q l (s ++ values d), count-append q s (values d))

All-pending :
    (P : ConnectedParticipant → Type 0) (l s : List ConnectedParticipant)
    (d : Dict ℕ ConnectedParticipant)
    → All P l
    → All P s
    → All P (values d)
    → All P (pending l s d)
All-pending P l s d a b c = All-append P l (s ++ values d) a (All-append P s (values d) b c)

All-pending_parts :
    (P : ConnectedParticipant → Type 0) (l s : List ConnectedParticipant)
    (d : Dict ℕ ConnectedParticipant)
    → All P (pending l s d)
    → All P l × All P s × All P (values d)
All-pending_parts P l s d h =
    let (a, rest) = All-parts P l (s ++ values d) h in
    let (b, c) = All-parts P s (values d) rest in (a, b, c)

module _ (l s : List ConnectedParticipant) (d : Dict ℕ ConnectedParticipant)
    (e : ConnectedParticipant) where
  -- A join that waits with its row.
  pub insert-IsMoved :
      (sid : ℕ) → lookup sid d ≡ none → IsMoved (e ∷ pending l s d) (pending l s (insert sid e d))
  insert-IsMoved sid free = record {
    counts = λ q. ground (
      arith,
      count-pending q l s d,
      count-pending q l s (insert sid e d),
      count-insert_fresh q sid e d free,
    );
    alls = λ P h.
        let (a, b, c) = All-pending_parts P l s d h.1 in
        All-pending P l s (insert sid e d) a b (All-insert P sid e d c h.0);
  }

  -- A join that waits no more.
  pub erase-IsMoved :
      (sid : ℕ)
      → IsKeyed d
      → lookup sid d ≡ some e
      → IsMoved (pending l s d) (e ∷ pending l s (erase sid d))
  erase-IsMoved sid keyed found = record {
    counts = λ q. ground (
      arith,
      count-pending q l s d,
      count-pending q l s (erase sid d),
      count-erase q sid e d keyed found,
    );
    alls = λ P h.
        let (a, b, c) = All-pending_parts P l s d h in
        (All-lookup P sid e d c found, All-pending P l s (erase sid d) a b (All-erase P sid d c));
  }

  pub strand-IsMoved : IsMoved (e ∷ pending l s d) (pending l (e ∷ s) d)
  strand-IsMoved = record {
    counts = λ q. ground (arith, count-pending q l s d, count-pending q l (e ∷ s) d);
    alls = λ P h.
        let (a, b, c) = All-pending_parts P l s d h.1 in All-pending P l (e ∷ s) d a (h.0, b) c;
  }

  -- A leave that failed.
  pub remove-IsMoved :
      (pid : ℕ)
      → find_leaving pid l ≡ some e
      → IsMoved (pending l s d) (pending (remove_leaving pid l) (e ∷ s) d)
  remove-IsMoved pid found = record {
    counts = λ q. ground (
      arith,
      count-pending q l s d,
      count-pending q (remove_leaving pid l) (e ∷ s) d,
      count-remove_leaving q pid e l found,
    );
    alls = λ P h.
        let (a, b, c) = All-pending_parts P l s d h in
        All-pending P (remove_leaving pid l) (e ∷ s) d (All-remove_leaving P pid l a)
          (All-find_leaving P pid e l found a, b) c;
  }

module _ (r : ParticipantRepository) (c : Dict ℕ ConnectedParticipant) where
  pub IsMoved-IsBooked :
      (a b : List ConnectedParticipant) → IsMoved a b → IsBooked r c a → IsBooked r c b
  unfolding holders
  IsMoved-IsBooked a b m k = record {
    fits = k.fits;
    rows_keyed = k.rows_keyed;
    entries_keyed = k.entries_keyed;
    synced = λ pid. ground (arith, k.synced pid, m.counts (is_of pid));
    agreed = k.agreed;
    agreed_leaving = m.alls (Agrees r) k.agreed_leaving;
    counted = λ room role. ground (arith, k.counted room role, m.counts (is_at room role));
  }

  -- A join that ends adds its connection.
  pub enter-IsBooked :
      (sid : ℕ) (e : ConnectedParticipant) (l : List ConnectedParticipant)
      → lookup sid c ≡ none
      → IsBooked r c (e ∷ l)
      → IsBooked r (insert sid e c) l
  unfolding holders
  enter-IsBooked sid e l free k = record {
    fits = k.fits;
    rows_keyed = k.rows_keyed;
    entries_keyed = insert-IsKeyed sid e c k.entries_keyed;
    synced = λ pid. ground (arith, k.synced pid, count-insert_fresh (is_of pid) sid e c free);
    agreed = All-insert (Agrees r) sid e c k.agreed k.agreed_leaving.0;
    agreed_leaving = k.agreed_leaving.1;
    counted = λ room role.
        ground (arith, k.counted room role, count-insert_fresh (is_at room role) sid e c free);
  }
