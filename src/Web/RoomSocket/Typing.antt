-- ===== src/Web/RoomSocket/Typing.antt =====
-- Who composes, as the client sees it, and the timers behind it
-- (apps/web/src/features/room/hooks/useRoomSocket.ts).
use synxor.Common.{
  ℕ, ◌+◌, ◌≤◌, ◌≡◌, refl, subst, Bool, true, false, not, ◌&&◌, any, All, All-insert, All-erase,
  All-mono, Option, none, some, List, [], ◌∷◌, Text, text_beq, text_beq_iff, text_eq, Dict, values,
  has_key, lookup-insert, lookup-erase, option-split, arith,
}
use synxor.Participant.Identity.{ParticipantIdentity}
use synxor.Web.RoomSocket.{
  TextPayload, Hook, author_key, incoming, typing_safety_timeout_ms, append_text, drop_typing,
  drop_all_typing, due, on_count, on_roster, on_progress, on_text, on_delivered, on_identity_self,
  on_identity, on_typing_state, on_timers, receive, receive_all, not_finite, at_most_zero, positive,
  connect, disconnect, connect_error, reconnect_failed, room_closed, count, roster, progress, text,
  delivered, identity_self, identity, typing_state, timers, Incoming,
}

-- Whoever is shown as composing has a timer, which goes off in time.
pub record IsArmed (now : ℕ) (h : Hook) : Type 0 where
  pub armed : (key : Text) → has_key key h.typing ≡ has_key key h.typing_timers
  pub in_time : All (λ at. at ≤ now + typing_safety_timeout_ms) (values h.typing_timers)

-- What `IsArmed` reads.
abbrev composing : Hook → Dict Text ParticipantIdentity × Dict Text ℕ
composing h = (h.typing, h.typing_timers)

IsArmed-same : (now : ℕ) (g h : Hook) → composing g ≡ composing h → IsArmed now g → IsArmed now h
IsArmed-same now g h e a = record {
  armed =
      subst
        (λ (c : Dict Text ParticipantIdentity × Dict Text ℕ).
          (key : Text) → has_key key c.0 ≡ has_key key c.1)
        e a.armed;
  in_time =
      subst
        (λ (c : Dict Text ParticipantIdentity × Dict Text ℕ).
          All (λ at. at ≤ now + typing_safety_timeout_ms) (values c.1))
        e a.in_time;
}

IsArmed-later : (now now' : ℕ) (h : Hook) → now ≤ now' → IsArmed now h → IsArmed now' h
IsArmed-later now now' h le a = record {
  armed = a.armed;
  in_time = All-mono _ _ (values h.typing_timers) (λ at b. omega (arith, b, le)) a.in_time;
}

drop_typing-IsArmed :
    (now : ℕ) (key : Text) (h : Hook) → IsArmed now h → IsArmed now (drop_typing key h)
unfolding drop_typing
drop_typing-IsArmed now key h a = record {
  armed = λ k.
      ground (arith, a.armed k, lookup-erase key k h.typing, lookup-erase key k h.typing_timers);
  in_time = All-erase _ key h.typing_timers a.in_time;
}

drop_all_typing-IsArmed :
    (now : ℕ) (keys : List Text) (h : Hook) → IsArmed now h → IsArmed now (drop_all_typing keys h)
drop_all_typing-IsArmed now [] h a = a
drop_all_typing-IsArmed now (k ∷ keys) h a =
    drop_all_typing-IsArmed now keys (drop_typing k h) (drop_typing-IsArmed now k h a)

append_text-composing :
    (t : _) (h : Hook) → composing h ≡ composing (record h { state = append_text t h.state })
unfolding append_text
append_text-composing t h = ground arith

on_text-IsArmed :
    (now : ℕ) (p : Option TextPayload) (h : Hook) → IsArmed now h → IsArmed now (on_text p h)
unfolding on_text
on_text-IsArmed now none h a = a
on_text-IsArmed now (some p) h a =
    option-split
      (λ (h₁ : Hook). IsArmed now (record h₁ { state = append_text (incoming p) h₁.state }))
      (author_key p.author) (λ _. IsArmed-same now h _ (append_text-composing (incoming p) h) a)
      (λ key _.
        IsArmed-same now (drop_typing key h) _
          (append_text-composing (incoming p) (drop_typing key h))
          (drop_typing-IsArmed now key h a))

on_typing_state-IsArmed :
    (now : ℕ) (p : Option (ParticipantIdentity × Bool)) (h : Hook)
    → IsArmed now h
    → IsArmed now (on_typing_state now p h)
unfolding on_typing_state
on_typing_state-IsArmed now none h a = a
on_typing_state-IsArmed now (some (i, false)) h a = drop_typing-IsArmed now i.key h a
on_typing_state-IsArmed now (some (i, true)) h a = record {
  armed = λ k. ground (
    arith,
    a.armed k,
    lookup-insert i.key k i h.typing,
    lookup-insert i.key k (now + typing_safety_timeout_ms) h.typing_timers,
  );
  in_time = All-insert _ i.key _ h.typing_timers a.in_time (omega arith);
}

receive-IsArmed :
    (now : ℕ) (e : Incoming) (h : Hook) → IsArmed now h → IsArmed now (receive now e h)
unfolding receive on_count on_roster on_progress on_delivered on_identity_self on_identity on_timers
receive-IsArmed now connect h a = IsArmed-same now h _ refl a
receive-IsArmed now disconnect h a = IsArmed-same now h _ refl a
receive-IsArmed now connect_error h a = IsArmed-same now h _ refl a
receive-IsArmed now reconnect_failed h a = IsArmed-same now h _ refl a
receive-IsArmed now room_closed h a = IsArmed-same now h _ refl a
receive-IsArmed now (count not_finite) h a = IsArmed-same now h _ refl a
receive-IsArmed now (count at_most_zero) h a = IsArmed-same now h _ refl a
receive-IsArmed now (count (positive n)) h a = IsArmed-same now h _ refl a
receive-IsArmed now (roster none) h a = a
receive-IsArmed now (roster (some p)) h a = IsArmed-same now h _ refl a
receive-IsArmed now (progress none) h a = a
receive-IsArmed now (progress (some p)) h a = IsArmed-same now h _ refl a
receive-IsArmed now (text p) h a = on_text-IsArmed now p h a
receive-IsArmed now (delivered none) h a = a
receive-IsArmed now (delivered (some id)) h a = IsArmed-same now h _ refl a
receive-IsArmed now (identity_self none) h a = a
receive-IsArmed now (identity_self (some i)) h a = IsArmed-same now h _ refl a
receive-IsArmed now (identity none) h a = a
receive-IsArmed now (identity (some i)) h a = IsArmed-same now h _ refl a
receive-IsArmed now (typing_state p) h a = on_typing_state-IsArmed now p h a
receive-IsArmed now timers h a = drop_all_typing-IsArmed now (due now h.typing_timers) h a

-- The events come one after another, the last one by `last`.
abbrev pub IsOrdered : ℕ → List (ℕ × Incoming) → ℕ → Type 0
IsOrdered now [] last = now ≤ last
IsOrdered now ((at, e) ∷ es) last = (now ≤ at) × IsOrdered at es last

receive_all-IsArmed :
    (now last : ℕ) (es : List (ℕ × Incoming)) (h : Hook)
    → IsOrdered now es last
    → IsArmed now h
    → IsArmed last (receive_all es h)
unfolding receive_all
receive_all-IsArmed now last [] h o a = IsArmed-later now last h o a
receive_all-IsArmed now last ((at, e) ∷ es) h o a =
    receive_all-IsArmed at last es (receive at e h) o.1
      (receive-IsArmed at e h (IsArmed-later now at h o.0 a))

has_text : Text → List Text → Bool
has_text k keys = any (text_beq k) keys

drop_all_typing-has_key :
    (key : Text) (keys : List Text) (h : Hook)
    → has_key key (drop_all_typing keys h).typing
      ≡ (has_key key h.typing && not (has_text key keys))
unfolding has_text drop_typing
drop_all_typing-has_key key [] h = ground arith
drop_all_typing-has_key key (k ∷ keys) h =
    ground (arith, drop_all_typing-has_key key keys (drop_typing k h), lookup-erase k key h.typing)

has_text-due :
    (now last : ℕ) (key : Text) (d : Dict Text ℕ)
    → now + typing_safety_timeout_ms ≤ last
    → All (λ at. at ≤ now + typing_safety_timeout_ms) (values d)
    → has_key key d ≡ true
    → has_text key (due last d) ≡ true
unfolding has_text
has_text-due now last key [] le a h = cc
has_text-due now last key ((k, at) ∷ d) le a h =
    ground (arith, has_text-due now last key d le a.1, text_beq_iff key k)

-- Liveness: from an empty indicator, whatever reaches the client until some time and in its order,
-- and whatever stop signals are lost: once six seconds have passed without another signal and the
-- timers have gone off, nobody is shown as composing.
pub receive_all-quiet :
    (from last later : ℕ) (es : List (ℕ × Incoming)) (h : Hook) (key : Text)
    → h.typing ≡ []
    → h.typing_timers ≡ []
    → IsOrdered from es last
    → last + typing_safety_timeout_ms ≤ later
    → has_key key (receive later timers (receive_all es h)).typing ≡ false
unfolding receive on_timers
receive_all-quiet from last later es h key none_types no_timers o le =
    let start : IsArmed from h = record {
      armed = λ k. ground (arith, none_types, no_timers);
      in_time = ground (arith, no_timers);
    } in
    let g = receive_all es h in
    let a = receive_all-IsArmed from last es h o start in
    ground (
      arith,
      a.armed key,
      has_text-due last later key g.typing_timers le a.in_time,
      drop_all_typing-has_key key (due later g.typing_timers) g,
    )
