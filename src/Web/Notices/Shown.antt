-- ===== src/Web/Notices/Shown.antt =====
-- What is shown of the changes that come, and what waits
-- (apps/web/src/features/room/hooks/usePresenceNotice.ts and useDeliveryFlash.ts).
use synxor.Common.{
  ℕ, ◌≡◌, refl, sym, ap, ◌∙◌, Bool, true, false, leb, if◌then◌else◌, if-split, option-split,
  list-split, length, has, add, add-IsDistinct, IsDistinct, map, Option, none, some, List, [], ◌∷◌,
  ◌++◌, append_assoc, append_nil, arith,
}
use synxor.Room.Events.{TransferProgressPayload}
use synxor.Web.RoomSocket.{PresenceChange}
use synxor.Web.Notices.{
  Feed, empty, shift, kick, push, told, is_own, PresenceNotice, on_change, on_timeout, NoticeEvent,
  changes, times_out, run, DeliveryFlashItem, DeliveryFlash, flash_loop, on_delivered,
  on_flash_timeout, flash_all,
}

module _ {A : Type 0} where
  shift-told : (f : Feed A) → told (shift f) ≡ told f
  unfolding shift
  shift-told f =
      list-split (λ (g : Feed A). told g ≡ told f) f.queue (λ _. refl)
        (λ x xs e. append_assoc f.shown (x ∷ []) xs ∙ ap (λ q. f.shown ++ q) (sym e))

  -- Nothing waits while nothing is shown.
  abbrev pub IsBusy : Feed A → Type 0
  IsBusy f = f.current ≡ none → f.queue ≡ []

  shift-IsBusy : (f : Feed A) → IsBusy (shift f)
  unfolding shift
  shift-IsBusy f = list-split IsBusy f.queue (λ e _. e) (λ x xs _ n. absurd cc)

  kick-told : (f : Feed A) → told (kick f) ≡ told f
  unfolding kick
  kick-told f =
      option-split (λ (g : Feed A). told g ≡ told f) f.current (λ _. shift-told f) (λ _ _. refl)

  kick-IsBusy : (f : Feed A) → IsBusy (kick f)
  unfolding kick
  kick-IsBusy f =
      option-split IsBusy f.current (λ _. shift-IsBusy f) (λ x e n. absurd (ground (arith, e, n)))

  push-told : (x : A) (f : Feed A) → told (push x f) ≡ told f ++ x ∷ []
  unfolding push
  push-told x f = sym (append_assoc f.shown f.queue (x ∷ []))

-- What is news: a change with a higher number than any seen before, but not one's own arrival. What
-- is there at first is seen already.
pub news : Option ℕ → List NoticeEvent → List PresenceChange
news seen [] = []
news seen (times_out ∷ es) = news seen es
news none (changes none self ∷ es) = news (some 0) es
news none (changes (some c) self ∷ es) = news (some c.seq) es
news (some n) (changes none self ∷ es) = news (some n) es
news (some n) (changes (some c) self ∷ es) =
    let old = news (some n) es in
    let new = news (some c.seq) es in
    if leb c.seq n then old else if is_own self c then new else c ∷ new

add-fresh : (n : ℕ) (ms : List ℕ) → has n ms ≡ false → add n ms ≡ ms ++ n ∷ []
add-fresh n [] h = refl
add-fresh n (m ∷ ms) h = ground (arith, h, add-fresh n ms)

-- What holds of two conditionals on one test holds of them on each branch.
both-split {ℓ κ} :
    {A : Type ℓ} {B : Type ℓ} (Q : A × B → Type κ) (b : Bool) {x y : A} {v w : B}
    → Q (x, v)
    → Q (y, w)
    → Q ((if b then x else y), (if b then v else w))
both-split Q true h k = h
both-split Q false h k = k

abbrev pub notice : Option ℕ → Feed PresenceChange → PresenceNotice
notice seen f = record { seen_seq = seen; feed = f }

run-told :
    (es : List NoticeEvent) (seen : Option ℕ) (f : Feed PresenceChange)
    → told (run es (notice seen f)).feed ≡ told f ++ news seen es
unfolding run news on_change on_timeout
run-told [] seen f = sym (append_nil (told f))
run-told (times_out ∷ es) seen f =
    option-split (λ (n : PresenceNotice). told (run es n).feed ≡ told f ++ news seen es) f.current
      (λ _. run-told es seen f)
      (λ _ _. run-told es seen (shift f) ∙ ap (λ l. l ++ news seen es) (shift-told f))
run-told (changes none self ∷ es) none f = run-told es (some 0) f
run-told (changes (some c) self ∷ es) none f = run-told es (some c.seq) f
run-told (changes none self ∷ es) (some n) f = run-told es (some n) f
run-told (changes (some c) self ∷ es) (some n) f =
    let Q : PresenceNotice × List PresenceChange → Type 0 =
      λ x. told (run es x.0).feed ≡ told f ++ x.1 in
    both-split Q (leb c.seq n) (run-told es (some n) f) (
      both-split Q (is_own self c) (run-told es (some c.seq) f) (
        run-told es (some c.seq) (kick (push c f))
        ∙ ap (λ l. l ++ news (some c.seq) es) (kick-told (push c f) ∙ push-told c f)
        ∙ append_assoc (told f) (c ∷ []) (news (some c.seq) es)))

run-IsBusy :
    (es : List NoticeEvent) (seen : Option ℕ) (f : Feed PresenceChange)
    → IsBusy f
    → IsBusy (run es (notice seen f)).feed
unfolding run on_change on_timeout
run-IsBusy [] seen f b = b
run-IsBusy (times_out ∷ es) seen f b =
    option-split (λ (n : PresenceNotice). IsBusy (run es n).feed) f.current
      (λ _. run-IsBusy es seen f b) (λ _ _. run-IsBusy es seen (shift f) (shift-IsBusy f))
run-IsBusy (changes none self ∷ es) none f b = run-IsBusy es (some 0) f b
run-IsBusy (changes (some c) self ∷ es) none f b = run-IsBusy es (some c.seq) f b
run-IsBusy (changes none self ∷ es) (some n) f b = run-IsBusy es (some n) f b
run-IsBusy (changes (some c) self ∷ es) (some n) f b =
    let Q : PresenceNotice → Type 0 = λ x. IsBusy (run es x).feed in
    if-split Q (leb c.seq n) (λ _. run-IsBusy es (some n) f b)
      (λ _.
        if-split Q (is_own self c) (λ _. run-IsBusy es (some c.seq) f b)
          (λ _. run-IsBusy es (some c.seq) (kick (push c f)) (kick-IsBusy (push c f))))

-- How many notices wait while nothing is shown.
abbrev pub stuck : Feed PresenceChange → ℕ
stuck f = elim (f.current) [ none ↦ length f.queue | some c ↦ 0 ]

-- From the first render on, whatever changes come and whenever the timer goes off: what was shown and
-- what waits to be shown are together the news, each once and in their order, and none waits while
-- nothing is shown.
pub run-news :
    (es : List NoticeEvent)
    → let f = (run es (notice none empty)).feed in
      (f.shown ++ f.queue ≡ news none es) × (stuck f ≡ 0)
run-news es =
    let f = (run es (notice none empty)).feed in
    (run-told es none empty, ground (arith, run-IsBusy es none empty (λ _. refl)))

abbrev pub flash_ids : Feed DeliveryFlashItem → List ℕ
flash_ids f = map (λ x. x.transfer_id) (told f)

map-append :
    (x : DeliveryFlashItem) (xs : List DeliveryFlashItem)
    → map (λ y. y.transfer_id) (xs ++ x ∷ []) ≡ map (λ y. y.transfer_id) xs ++ x.transfer_id ∷ []
map-append x [] = refl
map-append x (y ∷ xs) = ap (λ l. y.transfer_id ∷ l) (map-append x xs)

-- What was seen is what was there at first and what was flashed since, each once.
abbrev IsFlashed : List ℕ → List ℕ → Feed DeliveryFlashItem → Type 0
IsFlashed first seen f = (seen ≡ first ++ flash_ids f) × IsDistinct seen × IsBusy f

flash_loop-seen :
    (transfers : List TransferProgressPayload) (first delivered seen : List ℕ)
    (f : Feed DeliveryFlashItem)
    → seen ≡ first ++ flash_ids f
    → IsDistinct seen
    → let (seen', f') = flash_loop transfers delivered seen f in
      (seen' ≡ first ++ flash_ids f') × IsDistinct seen'
unfolding flash_loop
flash_loop-seen transfers first [] seen f e d = (e, d)
flash_loop-seen transfers first (id ∷ ids) seen f e d =
    let Q : List ℕ × Feed DeliveryFlashItem → Type 0 =
      λ r. (r.0 ≡ first ++ flash_ids r.1) × IsDistinct r.0 in
    if-split Q (has id seen) (λ _. flash_loop-seen transfers first ids seen f e d)
      (λ new.
        let x : DeliveryFlashItem = record { transfer_id = id; file_name = _ } in
        flash_loop-seen transfers first ids (add id seen) (push x f)
          (add-fresh id seen new
            ∙ ap (λ l. l ++ id ∷ []) e
            ∙ append_assoc first (flash_ids f) (id ∷ [])
            ∙ ap (λ l. first ++ l)
                (sym
                  (ap (λ l. map (λ y. y.transfer_id) l) (push-told x f) ∙ map-append x (told f))))
          (add-IsDistinct id seen d))

-- What is so of the flash once it was mounted with the deliveries `first`.
abbrev pub IsMounted : List ℕ → DeliveryFlash → Type 0
IsMounted first d =
    (seen : List ℕ) × (d.seen ≡ some seen) × (seen ≡ first ++ flash_ids d.flashes) × IsDistinct seen

flash_all-IsMounted :
    (first : List ℕ) (es : List (Option (List ℕ × List TransferProgressPayload))) (seen : List ℕ)
    (f : Feed DeliveryFlashItem)
    → seen ≡ first ++ flash_ids f
    → IsDistinct seen
    → IsMounted first (flash_all es (record { seen = some seen; flashes = f }))
unfolding flash_all on_delivered on_flash_timeout
flash_all-IsMounted first [] seen f e d = (seen, refl, e, d)
flash_all-IsMounted first (none ∷ es) seen f e d =
    option-split (λ (x : DeliveryFlash). IsMounted first (flash_all es x)) f.current
      (λ _. flash_all-IsMounted first es seen f e d)
      (λ _ _.
        flash_all-IsMounted first es seen (shift f)
          (e ∙ ap (λ l. first ++ map (λ x. x.transfer_id) l) (sym (shift-told f))) d)
flash_all-IsMounted first (some (delivered, transfers) ∷ es) seen f e d =
    let r = flash_loop transfers delivered seen f in
    let (e', d') = flash_loop-seen transfers first delivered seen f e d in
    flash_all-IsMounted first es r.0 (kick r.1)
      (e' ∙ ap (λ l. first ++ map (λ x. x.transfer_id) l) (sym (kick-told r.1))) d'

-- Whatever deliveries come after the first render, again and in any order, and whenever the timer
-- goes off: what was flashed and what waits to be are together each delivery that was seen later,
-- once, and none of those that were there at first.
pub flash_all-once :
    (first : List ℕ) (transfers : List TransferProgressPayload)
    (es : List (Option (List ℕ × List TransferProgressPayload)))
    → IsDistinct first
    → IsMounted first
        (flash_all (some (first, transfers) ∷ es) (record { seen = none; flashes = empty }))
unfolding flash_all on_delivered
flash_all-once first transfers es d =
    flash_all-IsMounted first es first empty (sym (append_nil first)) d
