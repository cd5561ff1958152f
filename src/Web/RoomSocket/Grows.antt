-- ===== src/Web/RoomSocket/Grows.antt =====
-- What the client has seen of its Room, over time
-- (apps/web/src/features/room/hooks/useRoomSocket.ts).
use synxor.Common.{
  IsPrefix, appended, IsPrefix-refl, IsPrefix-trans, IsPrefix-cons, add-IsPrefix, ℕ, ◌≤◌, ◌≡◌, refl,
  sym, ap, subst, Bool, true, false, ◌==◌, if◌then◌else◌, any, Option, none, some, List, [], ◌∷◌,
  Text, if-split, option-split, arith,
}
use synxor.Participant.Identity.{ParticipantIdentity}
use synxor.Room.Events.{TransferProgressPayload}
use synxor.Web.RoomSocket.{
  TextPayload, RoomText, RoomSocketState, Hook, author_key, incoming, seq_of, not_finite,
  at_most_zero, positive, append_text, upsert, drop_typing, drop_all_typing, due, on_count,
  on_roster, on_progress, on_text, on_delivered, on_identity_self, on_identity, on_typing_state,
  on_timers, receive, receive_all, connect, disconnect, connect_error, reconnect_failed,
  room_closed, count, roster, progress, text, delivered, identity_self, identity, typing_state,
  timers, Incoming,
}
use synxor.Web.RoomSocket.Stream.{transfer_ids}

upsert-IsPrefix :
    (p : TransferProgressPayload) (ts : List TransferProgressPayload)
    → IsPrefix (transfer_ids ts) (transfer_ids (upsert p ts))
unfolding upsert
upsert-IsPrefix p [] = appended [] (p.transfer_id ∷ [])
upsert-IsPrefix p (t ∷ ts) =
    if-split (λ l. IsPrefix (transfer_ids (t ∷ ts)) (transfer_ids l))
      (t.transfer_id == p.transfer_id)
      (λ e.
        subst (λ i. IsPrefix (transfer_ids (t ∷ ts)) (i ∷ transfer_ids ts)) (ground (arith, e))
          (IsPrefix-refl (transfer_ids (t ∷ ts))))
      (λ _. IsPrefix-cons t.transfer_id (upsert-IsPrefix p ts))

-- One state of the Room is a later one of it.
pub record IsLater (s s' : RoomSocketState) : Type 0 where
  pub texts_stay : IsPrefix s.texts s'.texts
  pub transfers_stay : IsPrefix (transfer_ids s.transfers) (transfer_ids s'.transfers)
  pub delivered_stay : IsPrefix s.delivered s'.delivered
  pub closed_stays : (if s.closed then s'.closed else true) ≡ true
  pub seq_climbs : seq_of s.presence_change ≤ seq_of s'.presence_change

IsLater-refl : (s : RoomSocketState) → IsLater s s
IsLater-refl s = record {
  texts_stay = IsPrefix-refl s.texts;
  transfers_stay = IsPrefix-refl (transfer_ids s.transfers);
  delivered_stay = IsPrefix-refl s.delivered;
  closed_stays = ground arith;
  seq_climbs = omega arith;
}

IsLater-trans : (r s t : RoomSocketState) → IsLater r s → IsLater s t → IsLater r t
IsLater-trans r s t h k = record {
  texts_stay = IsPrefix-trans h.texts_stay k.texts_stay;
  transfers_stay = IsPrefix-trans h.transfers_stay k.transfers_stay;
  delivered_stay = IsPrefix-trans h.delivered_stay k.delivered_stay;
  closed_stays = ground (arith, k.closed_stays, h.closed_stays);
  seq_climbs = ground (arith, h.seq_climbs, k.seq_climbs);
}

-- What `IsLater` reads of a state.
abbrev view : RoomSocketState → List RoomText × List TransferProgressPayload × List ℕ × Bool × ℕ
view s = (s.texts, s.transfers, s.delivered, s.closed, seq_of s.presence_change)

IsLater-same : (s s' : RoomSocketState) → view s ≡ view s' → IsLater s s'
IsLater-same s s' e = record {
  texts_stay = subst (IsPrefix s.texts) (ap (λ v. v.0) e) (IsPrefix-refl s.texts);
  transfers_stay =
      subst (λ ts. IsPrefix (transfer_ids s.transfers) (transfer_ids ts)) (ap (λ v. v.1) e)
        (IsPrefix-refl (transfer_ids s.transfers));
  delivered_stay = subst (IsPrefix s.delivered) (ap (λ v. v.2) e) (IsPrefix-refl s.delivered);
  closed_stays = ground (arith, ap (λ v. v.3) e);
  seq_climbs = ground (arith, ap (λ v. v.4) e);
}

append_text-IsLater : (t : RoomText) (s : RoomSocketState) → IsLater s (append_text t s)
unfolding append_text
append_text-IsLater t s =
    if-split (IsLater s) (any (λ x. x.transfer_id == t.transfer_id) s.texts) (λ _. IsLater-refl s)
      (λ _. record {
        texts_stay = appended s.texts (t ∷ []);
        transfers_stay = IsPrefix-refl (transfer_ids s.transfers);
        delivered_stay = IsPrefix-refl s.delivered;
        closed_stays = ground arith;
        seq_climbs = omega arith;
      })

drop_all_typing-view :
    (keys : List Text) (h : Hook) → view (drop_all_typing keys h).state ≡ view h.state
unfolding drop_typing
drop_all_typing-view [] h = refl
drop_all_typing-view (k ∷ keys) h = drop_all_typing-view keys (drop_typing k h)

on_text-IsLater : (p : Option TextPayload) (h : Hook) → IsLater h.state (on_text p h).state
unfolding on_text drop_typing
on_text-IsLater none h = IsLater-refl h.state
on_text-IsLater (some p) h =
    option-split (λ (h₁ : Hook). IsLater h.state (append_text (incoming p) h₁.state))
      (author_key p.author) (λ _. append_text-IsLater (incoming p) h.state)
      (λ key _.
        IsLater-trans h.state (drop_typing key h).state _
          (IsLater-same h.state (drop_typing key h).state refl)
          (append_text-IsLater (incoming p) (drop_typing key h).state))

on_typing_state-view :
    (now : ℕ) (p : Option (ParticipantIdentity × Bool)) (h : Hook)
    → view (on_typing_state now p h).state ≡ view h.state
unfolding on_typing_state drop_typing
on_typing_state-view now none h = refl
on_typing_state-view now (some (i, false)) h = refl
on_typing_state-view now (some (i, true)) h = refl

receive-IsLater : (now : ℕ) (e : Incoming) (h : Hook) → IsLater h.state (receive now e h).state
unfolding receive on_count on_roster on_progress on_delivered on_identity_self on_identity on_timers
receive-IsLater now connect h = IsLater-same h.state _ refl
receive-IsLater now disconnect h = IsLater-same h.state _ refl
receive-IsLater now connect_error h = IsLater-same h.state _ refl
receive-IsLater now reconnect_failed h = IsLater-same h.state _ refl
receive-IsLater now room_closed h = record {
  texts_stay = IsPrefix-refl h.texts;
  transfers_stay = IsPrefix-refl (transfer_ids h.transfers);
  delivered_stay = IsPrefix-refl h.delivered;
  closed_stays = ground arith;
  seq_climbs = omega arith;
}
receive-IsLater now (count not_finite) h = IsLater-same h.state _ refl
receive-IsLater now (count at_most_zero) h = IsLater-same h.state _ refl
receive-IsLater now (count (positive n)) h = IsLater-same h.state _ refl
receive-IsLater now (roster none) h = IsLater-same h.state _ refl
receive-IsLater now (roster (some p)) h = record {
  texts_stay = IsPrefix-refl h.texts;
  transfers_stay = IsPrefix-refl (transfer_ids h.transfers);
  delivered_stay = IsPrefix-refl h.delivered;
  closed_stays = ground arith;
  seq_climbs = ground arith;
}
receive-IsLater now (progress none) h = IsLater-same h.state _ refl
receive-IsLater now (progress (some p)) h = record {
  texts_stay = IsPrefix-refl h.texts;
  transfers_stay = upsert-IsPrefix p h.transfers;
  delivered_stay = IsPrefix-refl h.delivered;
  closed_stays = ground arith;
  seq_climbs = omega arith;
}
receive-IsLater now (text p) h = on_text-IsLater p h
receive-IsLater now (delivered none) h = IsLater-same h.state _ refl
receive-IsLater now (delivered (some id)) h = record {
  texts_stay = IsPrefix-refl h.texts;
  transfers_stay = IsPrefix-refl (transfer_ids h.transfers);
  delivered_stay = add-IsPrefix id h.delivered;
  closed_stays = ground arith;
  seq_climbs = omega arith;
}
receive-IsLater now (identity_self none) h = IsLater-same h.state _ refl
receive-IsLater now (identity_self (some i)) h = IsLater-same h.state _ refl
receive-IsLater now (identity none) h = IsLater-same h.state _ refl
receive-IsLater now (identity (some i)) h = IsLater-same h.state _ refl
receive-IsLater now (typing_state p) h = IsLater-same h.state _ (sym (on_typing_state-view now p h))
receive-IsLater now timers h =
    IsLater-same h.state _ (sym (drop_all_typing-view (due now h.typing_timers) h))

-- Whatever reaches the client over its socket: the texts, the deliveries and the Transfers that it
-- had stay, in their order, with new ones after them; a Room that was closed stays closed; and the
-- number of the latest arrival or departure never falls.
pub receive_all-IsLater :
    (es : List (ℕ × Incoming)) (h : Hook) → IsLater h.state (receive_all es h).state
unfolding receive_all
receive_all-IsLater [] h = IsLater-refl h.state
receive_all-IsLater ((now, e) ∷ es) h =
    IsLater-trans h.state _ _ (receive-IsLater now e h) (receive_all-IsLater es (receive now e h))
