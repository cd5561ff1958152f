-- ===== src/Sweeper/Uploads.antt =====
-- What the sweep does to uploads.
use synxor.Common.{
  ℕ, ◌<◌, ◌≡◌, Bool, true, ltb, ◌==◌, some, List, [], ◌∷◌, map, filter, any, values, lookup, insert,
  lookup-insert, nat_eq, ok, arith,
}
use synxor.Transfer.Sessions.{
  Sessions, MutableSession, UploadSession, snapshot, mark_received, received, find_abandoned,
}

-- Whether an upload with this id is among those found.
pub lists : ℕ → List UploadSession → Bool
lists t ms = any (λ m. m.transfer_id == t) ms

-- The session is stored under its own id.
abbrev pub IsFiled : Sessions → Type 0
IsFiled [] = Unit {0}
IsFiled ((k, m) ∷ s) = (k ≡ m.transfer_id) × IsFiled s

lists_of_lookup :
    (t cutoff : ℕ) (m : MutableSession) (s : Sessions)
    → lookup t s ≡ some m
    → m.transfer_id ≡ t
    → m.opened_at < cutoff
    → lists t (map snapshot (filter (λ x. ltb x.opened_at cutoff) (values s))) ≡ true
unfolding lists
lists_of_lookup t cutoff m [] e own old = cc
lists_of_lookup t cutoff m ((k, x) ∷ s) e own old = ground (arith, lists_of_lookup t cutoff m s)

-- An upload, kept under its own id, that was opened before the cutoff counts as abandoned also
-- when a chunk of it has just been received.
pub find_abandoned-mark_received :
    (t i cutoff : ℕ) (m : MutableSession) (s : Sessions)
    → lookup t s ≡ some m
    → m.transfer_id ≡ t
    → m.opened_at < cutoff
    → ((mark_received t i s).0 ≡ ok (received i m).session)
      × (lists t (find_abandoned cutoff (mark_received t i s).1) ≡ true)
unfolding mark_received find_abandoned
find_abandoned-mark_received t i cutoff m s e own old = ground (
  arith,
  e,
  lookup-insert t t (received i m) s,
  lists_of_lookup t cutoff (received i m) (insert t (received i m) s),
)
