-- ===== src/Transfer/Sessions/Received.antt =====
-- What the store's calls do to the sessions that `get` finds, and when a set of received chunks is
-- the whole file.
use synxor.Common.{
  ℕ, zero, suc, ◌+◌, ◌≤◌, ◌<◌, ◌≡◌, refl, true, false, ◌==◌, if◌then◌else◌, none, some, List, [],
  ◌∷◌, arith, lookup, lookup-insert, lookup-erase, add, has, length, All, IsDistinct, Option-cases,
  inl, inr, nat_eq, ok,
}
use synxor.Transfer.Sessions.{
  Sessions, UploadSession, CreateUploadSessionInput, fresh, reserve, get, received, mark_received,
  delete_session,
}
use synxor.Transfer.Sessions.Cap.{in_flight, active-in_flight}

-- The session with one more chunk marked.
abbrev pub marked : ℕ → UploadSession → UploadSession
marked i m = record m { received_chunks = add i m.received_chunks }

pub mark_received-get :
    (t i j : ℕ) (m : UploadSession) (s : Sessions)
    → get t s ≡ some m
    → ((mark_received t i s).0 ≡ ok (marked i m))
      × (get j (mark_received t i s).1 ≡ (if j == t then some (marked i m) else get j s))
unfolding get mark_received
mark_received-get t i j m s e = elim (Option-cases (lookup t s)) [
  | inl h ↦ absurd (ground arith)
  | inr (x, h) ↦ ground (arith, lookup-insert t j (received i x) s)
]

pub get-delete_session :
    (t j : ℕ) (s : Sessions) → get j (delete_session t s) ≡ (if j == t then none else get j s)
unfolding get delete_session
get-delete_session t j s = ground (arith, lookup-erase t j s)

-- A Room below the cap gets its slot, with nothing received yet.
pub reserve-get :
    (now cap j : ℕ) (input : CreateUploadSessionInput) (s : Sessions)
    → in_flight input.room_id s < cap
    → ((reserve now input cap s).0 ≡ some (fresh now input).session)
      × (get j (reserve now input cap s).1
          ≡ (if j == input.transfer_id then some (fresh now input).session else get j s))
unfolding get reserve
reserve-get now cap j input s h =
    ground (
      arith,
      active-in_flight input.room_id s,
      lookup-insert input.transfer_id j (fresh now input) s,
    )

-- How many of the numbers below `n` are in the set.
covered : ℕ → List ℕ → ℕ
covered zero ms = 0
covered (suc n) ms = (if has n ms then 1 else 0) + covered n ms

covered-nil : (n : ℕ) → covered n [] ≡ 0
unfolding covered
covered-nil zero = refl
covered-nil (suc n) = omega (arith, covered-nil n)

covered-le : (n : ℕ) (ms : List ℕ) → covered n ms ≤ n
unfolding covered
covered-le zero ms = omega arith
covered-le (suc n) ms = ground (arith, covered-le n ms)

covered-cons_above : (n m : ℕ) (ms : List ℕ) → n ≤ m → covered n (m ∷ ms) ≡ covered n ms
unfolding covered
covered-cons_above zero m ms h = refl
covered-cons_above (suc n) m ms h = ground (arith, covered-cons_above n m ms)

covered-cons :
    (n m : ℕ) (ms : List ℕ) → m < n → has m ms ≡ false → covered n (m ∷ ms) ≡ covered n ms + 1
unfolding covered
covered-cons zero m ms h e = absurd (omega arith)
covered-cons (suc n) m ms h e = ground (arith, covered-cons n m ms, covered-cons_above n m ms)

covered-eq-length :
    (n : ℕ) (ms : List ℕ) → IsDistinct ms → All (λ m. m < n) ms → covered n ms ≡ length ms
covered-eq-length n [] d h = covered-nil n
covered-eq-length n (m ∷ ms) d h =
    omega (arith, covered-cons n m ms h.0 d.0, covered-eq-length n ms d.1 h.1)

has_of_covered : (n i : ℕ) (ms : List ℕ) → covered n ms ≡ n → i < n → has i ms ≡ true
unfolding covered
has_of_covered zero i ms e h = absurd (omega arith)
has_of_covered (suc n) i ms e h = ground (arith, covered-le n ms, has_of_covered n i ms)

-- A set of `n` numbers below `n` has every number below `n`.
pub has_of_length :
    (n i : ℕ) (ms : List ℕ)
    → IsDistinct ms
    → All (λ m. m < n) ms
    → length ms ≡ n
    → i < n
    → has i ms ≡ true
has_of_length n i ms d h e lt = has_of_covered n i ms (omega (arith, covered-eq-length n ms d h)) lt

pub add-All : (n i : ℕ) (ms : List ℕ) → i < n → All (λ m. m < n) ms → All (λ m. m < n) (add i ms)
add-All n i [] lt h = (lt, tt)
add-All n i (m ∷ ms) lt h = ground (arith, add-All n i ms lt h.1)
