-- ===== src/Web/RoomSocket/Stream.antt =====
-- The identifiers in the streams of the client's Room
-- (apps/web/src/features/room/hooks/useRoomSocket.ts).
use synxor.Common.{
  ℕ, ◌≡◌, refl, sym, subst, Bool, true, false, ◌==◌, if◌then◌else◌, any, has, IsDistinct,
  add-IsDistinct, map, Option, none, some, List, [], ◌∷◌, ◌++◌, Text, if-split, option-split, arith,
}
use synxor.Participant.Identity.{ParticipantIdentity}
use synxor.Room.Events.{TransferProgressPayload}
use synxor.Web.RoomSocket.{
  TextPayload, author_key, incoming, not_finite, at_most_zero, positive, RoomText, RoomSocketState,
  Hook, append_text, upsert, drop_typing, drop_all_typing, due, on_count, on_roster, on_progress,
  on_text, on_delivered, on_identity_self, on_identity, on_typing_state, on_timers, receive,
  receive_all, connect, disconnect, connect_error, reconnect_failed, room_closed, count, roster,
  progress, text, delivered, identity_self, identity, typing_state, timers, Incoming,
}

abbrev pub text_ids : RoomSocketState → List ℕ
text_ids s = map (λ t. t.transfer_id) s.texts

abbrev pub transfer_ids : List TransferProgressPayload → List ℕ
transfer_ids ts = map (λ t. t.transfer_id) ts

-- No text, no Transfer and no delivery is listed twice.
abbrev pub IsOnce : RoomSocketState → Type 0
IsOnce s = IsDistinct (text_ids s) × IsDistinct (transfer_ids s.transfers) × IsDistinct s.delivered

pub has-append :
    (n k : ℕ) (ms : List ℕ) → has k (ms ++ n ∷ []) ≡ (if has k ms then true else k == n)
has-append n k [] = ground arith
has-append n k (m ∷ ms) = ground (arith, has-append n k ms)

append-IsDistinct :
    (n : ℕ) (ms : List ℕ) → has n ms ≡ false → IsDistinct ms → IsDistinct (ms ++ n ∷ [])
append-IsDistinct n [] f h = (refl, tt)
append-IsDistinct n (m ∷ ms) f h = ground (arith, append-IsDistinct n ms, h, has-append n m ms)

pub any-has :
    (n : ℕ) (ts : List RoomText)
    → any (λ x. x.transfer_id == n) ts ≡ has n (map (λ t. t.transfer_id) ts)
any-has n [] = refl
any-has n (t ∷ ts) = ground (arith, any-has n ts)

pub map-append :
    (t : RoomText) (ts : List RoomText)
    → map (λ x. x.transfer_id) (ts ++ t ∷ []) ≡ map (λ x. x.transfer_id) ts ++ t.transfer_id ∷ []
map-append t [] = refl
map-append t (x ∷ ts) = ground (arith, map-append t ts)

pub has-upsert :
    (p : TransferProgressPayload) (k : ℕ) (ts : List TransferProgressPayload)
    → has k (transfer_ids (upsert p ts))
      ≡ (if k == p.transfer_id then true else has k (transfer_ids ts))
unfolding upsert
has-upsert p k [] = ground arith
has-upsert p k (t ∷ ts) = ground (arith, has-upsert p k ts)

upsert-IsDistinct :
    (p : TransferProgressPayload) (ts : List TransferProgressPayload)
    → IsDistinct (transfer_ids ts)
    → IsDistinct (transfer_ids (upsert p ts))
unfolding upsert
upsert-IsDistinct p [] h = (refl, tt)
upsert-IsDistinct p (t ∷ ts) h =
    ground (arith, upsert-IsDistinct p ts h.1, has-upsert p t.transfer_id ts)

pub append_text-IsOnce : (t : RoomText) (s : RoomSocketState) → IsOnce s → IsOnce (append_text t s)
unfolding append_text
append_text-IsOnce t s w =
    if-split IsOnce (any (λ x. x.transfer_id == t.transfer_id) s.texts) (λ _. w)
      (λ n. (
        ground (
          arith,
          n,
          any-has t.transfer_id s.texts,
          map-append t s.texts,
          append-IsDistinct t.transfer_id (text_ids s),
          w.0,
        ),
        w.1,
        w.2,
      ))

-- Dropping peers that compose leaves the streams as they are.
abbrev pub streams : Hook → List RoomText × List TransferProgressPayload × List ℕ × Bool
streams h = (h.texts, h.transfers, h.delivered, h.closed)

pub drop_all_typing-streams :
    (keys : List Text) (h : Hook) → streams (drop_all_typing keys h) ≡ streams h
unfolding drop_typing
drop_all_typing-streams [] h = refl
drop_all_typing-streams (k ∷ keys) h = drop_all_typing-streams keys (drop_typing k h)

on_text-IsOnce : (p : Option TextPayload) (h : Hook) → IsOnce h.state → IsOnce (on_text p h).state
unfolding on_text drop_typing
on_text-IsOnce none h w = w
on_text-IsOnce (some p) h w =
    option-split (λ (h₁ : Hook). IsOnce (append_text (incoming p) h₁.state)) (author_key p.author)
      (λ _. append_text-IsOnce (incoming p) h.state w)
      (λ key _. append_text-IsOnce (incoming p) (drop_typing key h).state w)

on_typing_state-streams :
    (now : ℕ) (p : Option (ParticipantIdentity × Bool)) (h : Hook)
    → streams (on_typing_state now p h) ≡ streams h
unfolding on_typing_state drop_typing
on_typing_state-streams now none h = refl
on_typing_state-streams now (some (i, false)) h = refl
on_typing_state-streams now (some (i, true)) h = refl

IsOnce-same : (g h : Hook) → streams g ≡ streams h → IsOnce h.state → IsOnce g.state
IsOnce-same g h e w =
    subst
      (λ (x : List RoomText × List TransferProgressPayload × List ℕ × Bool).
        IsDistinct (map (λ t. t.transfer_id) x.0) × IsDistinct (transfer_ids x.1) × IsDistinct x.2)
      (sym e) w

receive-IsOnce :
    (now : ℕ) (e : Incoming) (h : Hook) → IsOnce h.state → IsOnce (receive now e h).state
unfolding receive on_count on_roster on_progress on_delivered on_identity_self on_identity on_timers
receive-IsOnce now connect h w = w
receive-IsOnce now disconnect h w = w
receive-IsOnce now connect_error h w = w
receive-IsOnce now reconnect_failed h w = w
receive-IsOnce now room_closed h w = w
receive-IsOnce now (count not_finite) h w = w
receive-IsOnce now (count at_most_zero) h w = w
receive-IsOnce now (count (positive n)) h w = w
receive-IsOnce now (roster none) h w = w
receive-IsOnce now (roster (some p)) h w = w
receive-IsOnce now (progress none) h w = w
receive-IsOnce now (progress (some p)) h w = (w.0, upsert-IsDistinct p h.transfers w.1, w.2)
receive-IsOnce now (text p) h w = on_text-IsOnce p h w
receive-IsOnce now (delivered none) h w = w
receive-IsOnce now (delivered (some id)) h w = (w.0, w.1, add-IsDistinct id h.delivered w.2)
receive-IsOnce now (identity_self none) h w = w
receive-IsOnce now (identity_self (some i)) h w = w
receive-IsOnce now (identity none) h w = w
receive-IsOnce now (identity (some i)) h w = w
receive-IsOnce now (typing_state p) h w =
    IsOnce-same (on_typing_state now p h) h (on_typing_state-streams now p h) w
receive-IsOnce now timers h w =
    IsOnce-same (on_timers now h) h (drop_all_typing-streams (due now h.typing_timers) h) w

-- Whatever reaches the client over its socket, in any order and however often: it lists no text, no
-- Transfer and no delivery twice.
pub receive_all-IsOnce :
    (es : List (ℕ × Incoming)) (h : Hook) → IsOnce h.state → IsOnce (receive_all es h).state
unfolding receive_all
receive_all-IsOnce [] h w = w
receive_all-IsOnce ((now, e) ∷ es) h w =
    receive_all-IsOnce es (receive now e h) (receive-IsOnce now e h w)
