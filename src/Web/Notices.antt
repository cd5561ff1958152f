-- ===== src/Web/Notices.antt =====
-- The notices that show one thing at a time: apps/web/src/features/room/hooks/usePresenceNotice.ts and
-- useDeliveryFlash.ts. `shown` is what has been on display, in order; it is not in the source.
pub mod Shown
use synxor.Common.{
  ℕ, ◌+◌, ◌≡◌, refl, sym, ap, ◌∙◌, Bool, true, false, leb, ◌&&◌, not, if◌then◌else◌, if-split, has,
  add, find, Option, none, some, List, [], ◌∷◌, ◌++◌, append_assoc, append_nil, Text, text_beq,
  nat_eq, arith, ◌==◌,
}
use synxor.Participant.Identity.{ParticipantIdentity}
use synxor.Room.Events.{TransferProgressPayload}
use synxor.Web.RoomSocket.{PresenceChange, Change, join, leave}

-- The queue behind the display.
pub record Feed (A : Type 0) : Type 0 where
  pub current : Option A
  pub queue : List A
  pub shown : List A

module _ {A : Type 0} where
  abbrev pub empty : Feed A
  empty = record { current = none; queue = []; shown = [] }

  -- `setCurrent(queue.shift() ?? null)`
  unfoldable pub shift : Feed A → Feed A
  shift f = elim (f.queue) [
    | [] ↦ record f { current = none }
    | x ∷ xs ↦ record { current = some x; queue = xs; shown = f.shown ++ x ∷ [] }
  ]

  -- `setCurrent((shown) => shown ?? queue.shift() ?? null)`
  unfoldable pub kick : Feed A → Feed A
  unfolding shift
  kick f = elim (f.current) [ some x ↦ f | none ↦ shift f ]

  unfoldable pub push : A → Feed A → Feed A
  push x f = record f { queue = f.queue ++ x ∷ [] }

  -- What was shown and what waits: all that was pushed.
  abbrev pub told : Feed A → List A
  told f = f.shown ++ f.queue

unfoldable pub is_own : Option Text → PresenceChange → Bool
is_own none c = false
is_own (some key) c = elim (c.type) [ join ↦ text_beq c.identity.key key | leave ↦ false ]

-- `usePresenceNotice`: the number of the latest change that was seen; `none` before the first run.
pub record PresenceNotice : Type 0 where
  pub seen_seq : Option ℕ
  pub feed : Feed PresenceChange

abbrev seq_of : Option PresenceChange → ℕ
seq_of none = 0
seq_of (some c) = c.seq

-- The effect for a change and this client's own key.
unfoldable pub on_change : Option PresenceChange → Option Text → PresenceNotice → PresenceNotice
unfolding kick push is_own
on_change change self n = elim (n.seen_seq) [
  | none ↦ record n { seen_seq = some (seq_of change) }
  | some seen ↦ elim change [
    | none ↦ n
    | some c ↦
        if leb c.seq seen
        then n
        else if is_own self c
        then record n { seen_seq = some c.seq }
        else record { seen_seq = some c.seq; feed = kick (push c n.feed) }
  ]
]

-- The timer of the notice that is shown goes off.
unfoldable pub on_timeout : PresenceNotice → PresenceNotice
unfolding shift
on_timeout n = elim (n.feed.current) [ none ↦ n | some c ↦ record n { feed = shift n.feed } ]

-- An event of the notice.
pub data NoticeEvent : Type 0 where
  changes : Option PresenceChange → Option Text → NoticeEvent
  times_out : NoticeEvent

unfoldable pub run : List NoticeEvent → PresenceNotice → PresenceNotice
unfolding on_change on_timeout
run [] n = n
run (changes c self ∷ es) n = run es (on_change c self n)
run (times_out ∷ es) n = run es (on_timeout n)

-- `useDeliveryFlash`: the deliveries that were seen; `none` before the first run.
pub record DeliveryFlashItem : Type 0 where
  pub transfer_id : ℕ
  pub file_name : Option Text

pub record DeliveryFlash : Type 0 where
  pub seen : Option (List ℕ)
  pub flashes : Feed DeliveryFlashItem

abbrev file_name_of : ℕ → List TransferProgressPayload → Option Text
file_name_of id transfers =
    elim (find (λ (t : TransferProgressPayload). t.transfer_id == id) transfers) [
      | none ↦ none
      | some t ↦ some t.file_name
    ]

-- The loop over the deliveries.
unfoldable pub flash_loop :
    List TransferProgressPayload
    → List ℕ
    → List ℕ
    → Feed DeliveryFlashItem
    → List ℕ × Feed DeliveryFlashItem
unfolding push
flash_loop transfers [] seen f = (seen, f)
flash_loop transfers (id ∷ ids) seen f =
    let skipped = flash_loop transfers ids seen f in
    let pushed =
      flash_loop transfers ids (add id seen)
        (push (record { transfer_id = id; file_name = file_name_of id transfers }) f) in
    if has id seen then skipped else pushed

unfoldable pub on_delivered : List ℕ → List TransferProgressPayload → DeliveryFlash → DeliveryFlash
unfolding flash_loop kick
on_delivered delivered transfers d = elim (d.seen) [
  | none ↦ record d { seen = some delivered }
  | some seen ↦
      let (seen', f) = flash_loop transfers delivered seen d.flashes in
      record { seen = some seen'; flashes = kick f }
]

unfoldable pub on_flash_timeout : DeliveryFlash → DeliveryFlash
unfolding shift
on_flash_timeout d = elim (d.flashes.current) [
  | none ↦ d
  | some x ↦ record d { flashes = shift d.flashes }
]

-- Runs of the effect, each with what is delivered by then, and timeouts in between.
unfoldable pub flash_all :
    List (Option (List ℕ × List TransferProgressPayload)) → DeliveryFlash → DeliveryFlash
unfolding on_delivered on_flash_timeout
flash_all [] d = d
flash_all (none ∷ es) d = flash_all es (on_flash_timeout d)
flash_all (some (delivered, transfers) ∷ es) d = flash_all es (on_delivered delivered transfers d)
