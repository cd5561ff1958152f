-- ===== src/Web/FileUploads/Lane.antt =====
-- The lane of uploads over many rounds (apps/web/src/features/room/hooks/useFileUploads.ts).
use synxor.Common.{
  ◌≡◌, ◌≢◌, refl, sym, ap, subst, ◌∙◌, true, false, not, ◌||◌, find, filter, map, length, Option,
  none, some, List, [], ◌∷◌, ◌++◌, Text, text_beq_iff, text_eq, lookup, lookup-erase, append_assoc,
  append_nil, arith,
}
use synxor.Web.FileQueue.{QueuedFile, has_id}
use synxor.Web.FileUploads.{
  Active, Uploads, Outcome, uploaded, upload_error, other_error, has_text, leave_effect,
  start_effect, settled_states, settle, render,
}

abbrev pub ids : List QueuedFile → List Text
ids files = map (λ q. q.id) files

-- No file is queued twice.
abbrev pub IsUnique : List QueuedFile → Type 0
IsUnique [] = Unit {0}
IsUnique (x ∷ xs) = (has_id x.id xs ≡ false) × IsUnique xs

has_text-ids : (k : Text) (xs : List QueuedFile) → has_text k (ids xs) ≡ has_id k xs
has_text-ids k [] = refl
has_text-ids k (x ∷ xs) =
    ground (arith, has_text-ids k xs, text_beq_iff k x.id, text_beq_iff x.id k)

has_id-append :
    (k : Text) (xs ys : List QueuedFile) → has_id k (xs ++ ys) ≡ (has_id k xs || has_id k ys)
has_id-append k [] ys = refl
has_id-append k (x ∷ xs) ys = ground (arith, has_id-append k xs ys)

unique-append :
    (x : QueuedFile) (pre post : List QueuedFile)
    → IsUnique (pre ++ x ∷ post)
    → has_id x.id pre ≡ false
unique-append x [] post h = refl
unique-append x (y ∷ pre) post h = ground (
  arith,
  h.0,
  unique-append x pre post h.1,
  has_id-append y.id pre (x ∷ post),
  text_beq_iff y.id x.id,
  text_beq_iff x.id y.id,
  text_beq_iff x.id x.id,
)

-- The first file that was not started follows those that were.
find-next :
    (x : QueuedFile) (pre post : List QueuedFile) (started : List Text)
    → ((k : Text) → has_id k pre ≡ true → has_text k started ≡ true)
    → has_text x.id started ≡ false
    → find (λ q. not (has_text q.id started)) (pre ++ x ∷ post) ≡ some x
find-next x [] post started all new = ground (arith, new)
find-next x (y ∷ pre) post started all new = ground (
  arith,
  all y.id (ground (arith, text_beq_iff y.id y.id)),
  find-next x pre post started (λ k h. all k (ground (arith, h))) new,
)

filter-ids :
    (files : List QueuedFile) (started : List Text)
    → ((k : Text) → has_text k started ≡ true → has_id k files ≡ true)
    → filter (λ id. has_id id files) started ≡ started
filter-ids files [] h = refl
filter-ids files (k ∷ ks) h = ground (
  arith,
  h k (ground (arith, text_beq_iff k k)),
  filter-ids files ks (λ j g. h j (ground (arith, g))),
)

-- One round: the effects run, and the upload that they start is answered.
abbrev IsRound : QueuedFile → Uploads → Uploads → Type 0
IsRound x u v =
    (v.active ≡ none) × (v.started ≡ u.started ++ x.id ∷ []) × (v.calls ≡ u.calls ++ x.id ∷ [])

leave_effect-idle :
    (files : List QueuedFile) (u : Uploads)
    → u.active ≡ none
    → filter (λ id. has_id id files) u.started ≡ u.started
    → leave_effect files u ≡ u
unfolding leave_effect
leave_effect-idle files u idle kept =
    ap (λ (p : Option Active × List Text). record u { active = p.0; started = p.1 })
      (ground (arith, idle, kept))

start-next :
    (o : Outcome) (x : QueuedFile) (files : List QueuedFile) (u : Uploads)
    → u.active ≡ none
    → find (λ q. not (has_text q.id u.started)) files ≡ some x
    → IsRound x u (settle o (start_effect true files u))
unfolding settle start_effect
start-next o x files u idle next = ground (arith, idle, next)

IsRound-next :
    (o : Outcome) (x : QueuedFile) (pre post : List QueuedFile) (u : Uploads)
    → IsUnique (pre ++ x ∷ post)
    → u.active ≡ none
    → u.started ≡ ids pre
    → IsRound x u (settle o (render true (pre ++ x ∷ post) u))
unfolding render
IsRound-next o x pre post u once idle begun =
    let files = pre ++ x ∷ post in
    let kept : filter (λ id. has_id id files) u.started ≡ u.started =
      filter-ids files u.started
        (λ k h. ground (arith, h, begun, has_text-ids k pre, has_id-append k pre (x ∷ post))) in
    let next : find (λ q. not (has_text q.id u.started)) files ≡ some x =
      find-next x pre post u.started (λ k h. ground (arith, h, begun, has_text-ids k pre))
        (ground (arith, begun, has_text-ids x.id pre, unique-append x pre post once)) in
    subst (λ v. IsRound x u (settle o (start_effect true files v)))
      (sym (leave_effect-idle files u idle kept)) (start-next o x files u idle next)

-- Rounds, each with the answer of its upload.
unfoldable pub rounds : List Outcome → List QueuedFile → Uploads → Uploads
unfolding render settle
rounds [] files u = u
rounds (o ∷ os) files u = rounds os files (settle o (render true files u))

ids-append : (x : QueuedFile) (pre : List QueuedFile) → ids pre ++ x.id ∷ [] ≡ ids (pre ++ x ∷ [])
ids-append x [] = refl
ids-append x (y ∷ pre) = ap (λ l. y.id ∷ l) (ids-append x pre)

abbrev Done : List Text → List QueuedFile → Uploads → Type 0
Done before post v = (v.active ≡ none) × (v.calls ≡ before ++ ids post)

rounds-rest :
    (os : List Outcome) (pre post : List QueuedFile) (u : Uploads)
    → IsUnique (pre ++ post)
    → length os ≡ length post
    → u.active ≡ none
    → u.started ≡ ids pre
    → Done u.calls post (rounds os (pre ++ post) u)
unfolding rounds
rounds-rest [] pre [] u once n idle begun = (idle, sym (append_nil u.calls))
rounds-rest [] pre (x ∷ post) u once n idle begun = absurd (omega (arith, n))
rounds-rest (o ∷ os) pre [] u once n idle begun = absurd (omega (arith, n))
rounds-rest (o ∷ os) pre (x ∷ post) u once n idle begun =
    let v = settle o (render true (pre ++ x ∷ post) u) in
    let (idle', begun', called) = IsRound-next o x pre post u once idle begun in
    let assoc = append_assoc pre (x ∷ []) post in
    let (done, calls) =
      rounds-rest os (pre ++ x ∷ []) post v (subst IsUnique (sym assoc) once) (omega (arith, n))
        idle' (begun' ∙ ap (λ l. l ++ x.id ∷ []) begun ∙ ids-append x pre) in
    subst (λ files. Done u.calls (x ∷ post) (rounds os files v)) assoc
      (done, calls ∙ ap (λ l. l ++ ids post) called ∙ append_assoc u.calls (x.id ∷ []) (ids post))

-- Liveness: from an empty lane, with a token and an origin, over files each queued once, and however
-- their uploads end, with as many answers as there are files: every file was uploaded, once and in
-- the queue's order, and no upload is left running.
pub rounds-all :
    (os : List Outcome) (files : List QueuedFile) (u : Uploads)
    → IsUnique files
    → length os ≡ length files
    → u.active ≡ none
    → u.started ≡ []
    → u.calls ≡ []
    → let u' = rounds os files u in (u'.active ≡ none) × (u'.calls ≡ ids files)
rounds-all os files u once n idle fresh none_yet =
    let (done, calls) = rounds-rest os [] files u once n idle fresh in
    (done, calls ∙ ap (λ l. l ++ ids files) none_yet)

-- A file is taken out of the queue while it is uploaded: the upload is aborted, and however it then
-- fails, the file has no state, so that no error is shown.
pub settle-aborted :
    (outcome : Outcome) (files : List QueuedFile) (a : Active) (u : Uploads)
    → u.active ≡ some a
    → has_id a.id files ≡ false
    → ((id : _) → outcome ≢ uploaded id)
    → let u' = settle outcome (leave_effect files u) in
      (lookup a.id u'.states ≡ none) × (u'.active ≡ none)
unfolding settle leave_effect settled_states
settle-aborted (uploaded id) files a u runs gone fails = absurd (fails id refl)
settle-aborted (upload_error m) files a u runs gone fails =
    ground (arith, runs, gone, lookup-erase a.id a.id u.states, text_beq_iff a.id a.id)
settle-aborted other_error files a u runs gone fails =
    ground (arith, runs, gone, lookup-erase a.id a.id u.states, text_beq_iff a.id a.id)
