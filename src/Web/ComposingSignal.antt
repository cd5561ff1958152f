-- ===== src/Web/ComposingSignal.antt =====
-- apps/web/src/features/room/hooks/useComposingSignal.ts: when the composer tells the Room that one is
-- typing. Times are milliseconds.
use synxor.Common.{
  ℕ, ◌+◌, ◌-◌, ◌≤◌, ◌<◌, ◌≡◌, refl, sym, subst, Bool, true, false, ◌&&◌, ◌||◌, ◌==◌, leb,
  if◌then◌else◌, Option, none, some, List, [], ◌∷◌, ◌++◌, arith,
}
use synxor.Web.RoomSocket.{typing_safety_timeout_ms}

abbrev pub idle_ms : ℕ
idle_ms = 2500

abbrev pub heartbeat_ms : ℕ
heartbeat_ms = 3000

-- The references of the hook, and what `onChange` was called with, and when.
pub record Composer : Type 0 where
  pub active : Bool
  pub last_emit : ℕ
  pub idle_timer : Option ℕ
  pub signals : List (ℕ × Bool)

unfoldable pub stop : ℕ → Composer → Composer
stop now c = record c {
  idle_timer = none;
  active = false;
  signals = if c.active then c.signals ++ (now, false) ∷ [] else c.signals;
}

unfoldable pub notify : ℕ → Composer → Composer
notify now c =
    let emits = if c.active then leb heartbeat_ms (now - c.last_emit) else true in
    record {
      active = true;
      last_emit = if emits then now else c.last_emit;
      idle_timer = some (now + idle_ms);
      signals = if emits then c.signals ++ (now, true) ∷ [] else c.signals;
    }

-- The idle timer goes off if it is due.
unfoldable pub on_idle : ℕ → Composer → Composer
unfolding stop
on_idle now c = elim (c.idle_timer) [ none ↦ c | some at ↦ if leb at now then stop now c else c ]

-- Keystrokes at these times, with the idle timer in between.
unfoldable pub type_all : List ℕ → Composer → Composer
unfolding notify on_idle
type_all [] c = c
type_all (now ∷ times) c = type_all times (notify now (on_idle now c))

-- Each keystroke follows within the idle time.
abbrev pub IsSteady : ℕ → List ℕ → ℕ → Type 0
IsSteady from [] last = from ≡ last
IsSteady from (at ∷ times) last = (from ≤ at) × (at < from + idle_ms) × IsSteady at times last

abbrev pub has_signal : ℕ → List (ℕ × Bool) → Bool
has_signal at [] = false
has_signal at ((t, b) ∷ signals) = t == at && b || has_signal at signals

-- One is typing, was heard of a heartbeat ago at most, and the timer runs.
record IsLit (now : ℕ) (c : Composer) : Type 0 where
  lit : c.active ≡ true
  past : c.last_emit ≤ now
  heard : now < c.last_emit + heartbeat_ms
  timed : c.idle_timer ≡ some (now + idle_ms)
  signalled : has_signal c.last_emit c.signals ≡ true

has_signal-append :
    (at now : ℕ) (b : Bool) (signals : List (ℕ × Bool))
    → has_signal at signals ≡ true
    → has_signal at (signals ++ (now, b) ∷ []) ≡ true
has_signal-append at now b [] h = absurd cc
has_signal-append at now b ((t, x) ∷ signals) h =
    ground (arith, h, has_signal-append at now b signals)

has_signal-last :
    (now : ℕ) (signals : List (ℕ × Bool)) → has_signal now (signals ++ (now, true) ∷ []) ≡ true
has_signal-last now [] = ground arith
has_signal-last now ((t, x) ∷ signals) = ground (arith, has_signal-last now signals)

notify-IsLit :
    (from now : ℕ) (c : Composer)
    → from ≤ now
    → now < from + idle_ms
    → IsLit from c
    → IsLit now (notify now (on_idle now c))
unfolding notify on_idle
notify-IsLit from now c le lt l =
    let early : on_idle now c ≡ c = ground (arith, l.timed, lt) in
    subst (λ d. IsLit now (notify now d)) (sym early)
      (record {
        lit = refl;
        past = ground (arith, l.past, le);
        heard = ground (arith, l.lit, l.past, l.heard, le);
        timed = refl;
        signalled = ground (arith, l.signalled, l.lit, has_signal-last now c.signals);
      })

type_all-IsLit :
    (from last : ℕ) (times : List ℕ) (c : Composer)
    → IsSteady from times last
    → IsLit from c
    → IsLit last (type_all times c)
unfolding type_all
type_all-IsLit from last [] c s l = subst (λ t. IsLit t c) s l
type_all-IsLit from last (at ∷ times) c s l =
    type_all-IsLit at last times (notify at (on_idle at c)) s.2 (notify-IsLit from at c s.0 s.1 l)

-- While one keeps typing, from a first keystroke on and with less than the idle time between two: one
-- counts as typing, and at every moment until the idle timer would go off, the last `true` that was
-- sent is younger than the time after which the others' indicator clears itself.
pub type_all-lit :
    (from last at : ℕ) (times : List ℕ) (c : Composer)
    → c.active ≡ false
    → IsSteady from times last
    → last ≤ at
    → at ≤ last + idle_ms
    → let d = type_all times (notify from c) in
      (d.active ≡ true)
      × (has_signal d.last_emit d.signals ≡ true)
      × (at < d.last_emit + typing_safety_timeout_ms)
unfolding notify
type_all-lit from last at times c quiet steady after before =
    let first : IsLit from (notify from c) = record {
      lit = refl;
      past = ground (arith, quiet);
      heard = ground (arith, quiet);
      timed = refl;
      signalled = ground (arith, quiet, has_signal-last from c.signals);
    } in
    let l = type_all-IsLit from last times (notify from c) steady first in
    (l.lit, l.signalled, omega (arith, l.heard, before))
