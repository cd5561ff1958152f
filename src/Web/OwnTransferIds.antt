-- ===== src/Web/OwnTransferIds.antt =====
-- apps/web/src/features/room/hooks/useOwnTransferIds.ts: the Transfers that this tab has sent, which it
-- keeps in the browser's storage. JSON is an argument, and so is whether the storage throws.
use synxor.Common.{
  ℕ, ◌≡◌, refl, Bool, false, ◌==◌, any, if◌then◌else◌, Option, none, some, List, [], ◌∷◌, ◌++◌, map,
  Text, codes, text_beq, text_beq_iff, text_eq, Dict, insert, lookup, lookup-insert, arith,
}

-- `parse` yields no value where it throws, no list where the text is no array, and an element that is
-- not a text as `none`.
pub record IdsJson : Type 0 where
  pub stringify : List ℕ → Text
  pub parse : Text → Option (Option (List (Option ℕ)))

-- What is written is read back, and it is not empty.
pub record IsIdsJson (j : IdsJson) : Type 0 where
  pub parses : (ids : List ℕ) → j.parse (j.stringify ids) ≡ some (some (map some ids))
  pub full : (ids : List ℕ) → text_beq (j.stringify ids) [] ≡ false

abbrev pub sent_key : Text → Text
sent_key room_code = codes "synxor.room." ++ room_code ++ codes ".sent"

abbrev pub only_ids : List (Option ℕ) → List ℕ
only_ids [] = []
only_ids (none ∷ vs) = only_ids vs
only_ids (some v ∷ vs) = v ∷ only_ids vs

abbrev pub ids_of : Option (Option (List (Option ℕ))) → List ℕ
ids_of none = []
ids_of (some none) = []
ids_of (some (some vs)) = only_ids vs

unfoldable pub read : IdsJson → Bool → Text → Dict Text Text → List ℕ
read j throws room_code d = if throws then [] else elim (lookup (sent_key room_code) d) [
  | none ↦ []
  | some raw ↦ if text_beq raw [] then [] else ids_of (j.parse raw)
]

unfoldable pub persist : IdsJson → Bool → Text → List ℕ → Dict Text Text → Dict Text Text
persist j throws room_code ids d =
    if throws then d else insert (sent_key room_code) (j.stringify ids) d

abbrev pub has_sent : ℕ → List ℕ → Bool
has_sent id ids = any (λ i. i == id) ids

-- `add`: the hook's `Set`, and the storage.
unfoldable pub add_sent :
    IdsJson → Bool → Text → ℕ → List ℕ × Dict Text Text → List ℕ × Dict Text Text
unfolding persist
add_sent j throws room_code id (ids, d) =
    let next = ids ++ id ∷ [] in
    if has_sent id ids then (ids, d) else (next, persist j throws room_code next d)

only_ids-map : (ids : List ℕ) → only_ids (map some ids) ≡ ids
only_ids-map [] = refl
only_ids-map (i ∷ ids) = ground (arith, only_ids-map ids)

-- While the storage works: what the hook holds is what a reload reads, also after one more is added.
read-add_sent :
    (j : IdsJson) (room_code : Text) (id : ℕ) (ids : List ℕ) (d : Dict Text Text)
    → IsIdsJson j
    → read j false room_code d ≡ ids
    → read j false room_code (add_sent j false room_code id (ids, d)).1
      ≡ (add_sent j false room_code id (ids, d)).0
unfolding read add_sent persist
read-add_sent j room_code id ids d h r = ground (
  arith,
  h.full (ids ++ id ∷ []),
  h.parses (ids ++ id ∷ []),
  only_ids-map (ids ++ id ∷ []),
  lookup-insert (sent_key room_code) (sent_key room_code) (j.stringify (ids ++ id ∷ [])) d,
  text_beq_iff (sent_key room_code) (sent_key room_code),
)
