-- ===== src/Transfer/Sessions/Cap.antt =====
-- The cap on the uploads in flight in one Room.
use synxor.Common.{
  ℕ, ◌+◌, ◌≤◌, ◌≡◌, refl, ◌↔◌, inl, inr, ◌==◌, if◌then◌else◌, none, some, List, [], ◌∷◌, arith,
  values, lookup, insert, erase, Option-cases, nat_eq, count, ==_iff,
}
use synxor.Transfer.Sessions.{
  Sessions, MutableSession, CreateUploadSessionInput, active, fresh, reserve, received,
  mark_received, delete_session,
}

-- The number of a Room's sessions in the store.
abbrev pub in_flight : ℕ → Sessions → ℕ
in_flight room s = count (λ m. m.room_id == room) (values s)

active-count :
    (room : ℕ) (ms : List MutableSession) → active room ms ≡ count (λ m. m.room_id == room) ms
unfolding active
active-count room [] = refl
active-count room (m ∷ ms) = ground (arith, active-count room ms)

-- What `reserve` counts is the number of the Room's sessions.
pub active-in_flight : (room : ℕ) (s : Sessions) → active room (values s) ≡ in_flight room s
active-in_flight room s = active-count room (values s)

in_flight-insert :
    (k room : ℕ) (m : MutableSession) (s : Sessions)
    → in_flight room (insert k m s) ≤ in_flight room s + (if m.room_id == room then 1 else 0)
unfolding active
in_flight-insert k room m [] = ground arith
in_flight-insert k room m ((j, n) ∷ s) = ground (arith, in_flight-insert k room m s)

in_flight-replace :
    (k room : ℕ) (m n : MutableSession) (s : Sessions)
    → lookup k s ≡ some m
    → n.room_id ≡ m.room_id
    → in_flight room (insert k n s) ≡ in_flight room s
unfolding active
in_flight-replace k room m n [] h e = cc
in_flight-replace k room m n ((j, x) ∷ s) h e = ground (arith, in_flight-replace k room m n s)

in_flight-erase : (k room : ℕ) (s : Sessions) → in_flight room (erase k s) ≤ in_flight room s
unfolding active
in_flight-erase k room [] = omega arith
in_flight-erase k room ((j, m) ∷ s) = ground (arith, in_flight-erase k room s)

-- A call of the store that changes it, with its arguments and the time.
pub data Call : Type 0 where
  reserves : ℕ → CreateUploadSessionInput → Call
  marks : ℕ → ℕ → Call
  deletes : ℕ → Call

-- The store after a call, under a cap on each Room.
pub step : ℕ → Sessions → Call → Sessions
step cap s (reserves now input) = (reserve now input cap s).1
step cap s (marks transfer_id i) = (mark_received transfer_id i s).1
step cap s (deletes transfer_id) = delete_session transfer_id s

pub run : ℕ → Sessions → List Call → Sessions
run cap s [] = s
run cap s (c ∷ cs) = run cap (step cap s c) cs

reserve-in_flight :
    (now cap room : ℕ) (input : CreateUploadSessionInput) (s : Sessions)
    → in_flight room s ≤ cap
    → in_flight room (reserve now input cap s).1 ≤ cap
unfolding reserve
reserve-in_flight now cap room input s h = ground (
  arith,
  active-in_flight input.room_id s,
  in_flight-insert input.transfer_id room (fresh now input) s,
  ==_iff input.room_id room,
)

mark_received-in_flight :
    (t i room : ℕ) (s : Sessions) → in_flight room (mark_received t i s).1 ≡ in_flight room s
unfolding mark_received
mark_received-in_flight t i room s = elim (Option-cases (lookup t s)) [
  | inl e ↦ rw (e, mark_received)
  | inr (m, e) ↦ rw (e, mark_received) (in_flight-replace t room m (received i m) s e refl)
]

pub step-in_flight :
    (cap room : ℕ) (s : Sessions) (c : Call)
    → in_flight room s ≤ cap
    → in_flight room (step cap s c) ≤ cap
unfolding step delete_session
step-in_flight cap room s (reserves now input) h = reserve-in_flight now cap room input s h
step-in_flight cap room s (marks t i) h = omega (arith, mark_received-in_flight t i room s)
step-in_flight cap room s (deletes t) h = omega (arith, in_flight-erase t room s)

-- From a store within the cap, no sequence of calls takes any Room above it.
pub run-in_flight :
    (cap room : ℕ) (s : Sessions) (cs : List Call)
    → in_flight room s ≤ cap
    → in_flight room (run cap s cs) ≤ cap
unfolding run
run-in_flight cap room s [] h = h
run-in_flight cap room s (c ∷ cs) h =
    run-in_flight cap room (step cap s c) cs (step-in_flight cap room s c h)

-- A slot is refused exactly when the Room has reached the cap; then the store does not change.
pub reserve_refuses :
    (now cap : ℕ) (input : CreateUploadSessionInput) (s : Sessions)
    → (reserve now input cap s ≡ (none, s)) ↔ (cap ≤ in_flight input.room_id s)
unfolding reserve
reserve_refuses now cap input s = (
  λ h. ground (arith, active-in_flight input.room_id s),
  λ h. ground (arith, active-in_flight input.room_id s),
)
