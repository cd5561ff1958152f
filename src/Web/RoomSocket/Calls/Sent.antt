-- ===== src/Web/RoomSocket/Calls/Sent.antt =====
-- A text on its way from its author's client over the gateway to the others: `sendText` of
-- apps/web/src/features/room/hooks/useRoomSocket.ts, `handleSendText` of
-- apps/api/src/room/room.gateway.ts, and `onText` of the hook again.
use synxor.Common.{
  ℕ, ◌≡◌, refl, ap, true, false, has, Option, some, [], ◌∷◌, ◌++◌, Text, lookup, nat_eq, Result, ok,
  option-split, if-split, arith,
}
use synxor.Room.Events.{others, text, TransferTextPayload}
use synxor.Room.Gateway.{ConnectedParticipant, Gateway, emit}
use synxor.Room.Gateway.Handlers.{Platform, SentText, Refusal, send_valid, handle_send_text}
use synxor.Transfer.Text.{send_text_schema}
use synxor.Web.RoomSocket.{
  author_key, RoomText, RoomSocketState, TextPayload, Hook, append_text, incoming, on_text,
  drop_typing,
}
use synxor.Web.RoomSocket.Calls.{own_row, on_sent}
use synxor.Web.RoomSocket.Stream.{text_ids, any-has}

-- The payload as it arrives at the client.
abbrev pub on_wire : TransferTextPayload → TextPayload
on_wire p = record {
  transfer_id = p.transfer_id;
  payload_type = p.payload_type;
  content = p.content;
  author = some p.author;
}

-- The event for a text of this Participant.
abbrev payload_of : ConnectedParticipant → SentText → TransferTextPayload
payload_of info row = record {
  transfer_id = row.transfer_id;
  payload_type = row.payload_type;
  content = row.content;
  author = record { role = info.role; identity = some info.identity };
}

-- The two rows of one text: the author's and the others'.
abbrev pub IsSameText : RoomText → RoomText → Type 0
IsSameText x y =
    (x.transfer_id ≡ y.transfer_id)
    × (x.payload_type ≡ y.payload_type)
    × (x.content ≡ y.content)
    × (x.mine ≡ true)
    × (y.mine ≡ false)

append_text-fresh :
    (t : RoomText) (s : RoomSocketState)
    → has t.transfer_id (text_ids s) ≡ false
    → (append_text t s).texts ≡ s.texts ++ t ∷ []
unfolding append_text
append_text-fresh t s h = ground (arith, h, any-has t.transfer_id s.texts)

-- What one emission of a text does to a client that has not seen it.
on_text-fresh :
    (p : TextPayload) (h : Hook)
    → has p.transfer_id (text_ids h.state) ≡ false
    → (on_text (some p) h).texts ≡ h.texts ++ incoming p ∷ []
unfolding on_text drop_typing
on_text-fresh p h fresh =
    option-split
      (λ (h₁ : Hook). (append_text (incoming p) h₁.state).texts ≡ h.texts ++ incoming p ∷ [])
      (author_key p.author) (λ _. append_text-fresh (incoming p) h.state fresh)
      (λ key _. append_text-fresh (incoming p) (drop_typing key h).state fresh)

-- What is so when the server accepts a text: it emits one event, to the others in the Room; and the
-- author's client, answered with the ack, and another client, told by that event, each append one row
-- to what they had: the same identifier, the same type and the same content, marked as the author's
-- own here and not there, with its author named there.
pub record IsSent (sid : ℕ) (g g' : Gateway) (sent : SentText) (author : RoomSocketState)
    (other : Hook) : Type 0 where
  pub info : ConnectedParticipant
  pub payload : TransferTextPayload
  pub joined : lookup sid g.connected ≡ some info
  pub emitted :
      g'.emitted ≡ g.emitted ++ record { to = others info.room_id sid; event = text payload } ∷ []
  pub mine : RoomText
  pub theirs : RoomText
  pub author_sees : (on_sent (ok sent) author).texts ≡ author.texts ++ mine ∷ []
  pub other_sees : (on_text (some (on_wire payload)) other).texts ≡ other.texts ++ theirs ∷ []
  pub same : IsSameText mine theirs
  pub named : theirs.author ≡ some (record { role = info.role; identity = some info.identity })

-- The answer of a call that succeeds.
abbrev answer : SentText → Result Refusal SentText
answer row = ok row

ok_injective : (x y : SentText) → answer x ≡ answer y → x ≡ y
ok_injective x y h = cc

-- When the server accepts a text that neither client has seen, it emits it to the others in the Room,
-- and the author's client and another one each append one row for it, with the same identifier, type
-- and content; it is marked as the author's own here and not there, where its author is named.
pub handle_send_text-same :
    (p : Platform) (now sid : ℕ) (body : Option Text) (g : Gateway) (sent : SentText)
    (author : RoomSocketState) (other : Hook)
    → (handle_send_text p false now sid body g).0 ≡ ok sent
    → has sent.transfer_id (text_ids author) ≡ false
    → has sent.transfer_id (text_ids other.state) ≡ false
    → IsSent sid g (handle_send_text p false now sid body g).1 sent author other
unfolding handle_send_text send_valid emit on_sent
handle_send_text-same p now sid body g sent author other done f₁ f₂ =
    let Q : Result Refusal SentText × Gateway → Type 0 =
      λ x. x.0 ≡ ok sent → IsSent sid g x.1 sent author other in
    option-split Q (lookup sid g.connected) (λ _ d. absurd cc)
      (λ info h.
        option-split Q body (λ _ d. absurd cc)
          (λ t _.
            if-split Q (send_text_schema t)
              (λ _ d.
                let row = ok_injective _ sent d in
                let payload = payload_of info sent in
                record {
                  info = info;
                  payload = payload;
                  joined = h;
                  emitted =
                      ap
                        (λ x.
                          g.emitted
                          ++ record {
                            to = others info.room_id sid;
                            event = text (payload_of info x);
                          }
                            ∷ [])
                        row;
                  mine = own_row sent;
                  theirs = incoming (on_wire payload);
                  author_sees = append_text-fresh (own_row sent) author f₁;
                  other_sees = on_text-fresh (on_wire payload) other f₂;
                  same = (refl, refl, refl, refl, refl);
                  named = refl;
                })
              (λ _ d. absurd cc)))
      done
