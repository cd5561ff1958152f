-- ===== src/Web/RoomSession/Kept.antt =====
-- Reading what was stored with apps/web/src/features/room/services/room-session.service.ts.
use synxor.Common.{
  drop, length, length-append, ◌≡◌, ◌≢◌, refl, ap, Bool, true, false, Option, none, some, [], ◌∷◌,
  ◌++◌, Text, codes, text_beq_iff, text_eq, lookup, lookup-insert, arith,
}
use synxor.Web.RoomSession.{
  RoomRole, sender, receiver, RoomSession, a_text, Json, IsJson, field, role_field, Storage,
  get_item, set_item, key_for, store, session_of, get,
}

-- The check takes what a session is written as.
session_of-fields :
    (t : Text) (e c : Option Text) (r : Option RoomRole)
    → session_of (record {
      token = a_text t;
      expires_at = field e;
      created_at = field c;
      role = role_field r;
    })
      ≡ some (record { token = t; expires_at = e; created_at = c; role = r })
unfolding session_of
session_of-fields t none none none = refl
session_of-fields t none none (some sender) = refl
session_of-fields t none none (some receiver) = refl
session_of-fields t none (some c) none = refl
session_of-fields t none (some c) (some sender) = refl
session_of-fields t none (some c) (some receiver) = refl
session_of-fields t (some e) none none = refl
session_of-fields t (some e) none (some sender) = refl
session_of-fields t (some e) none (some receiver) = refl
session_of-fields t (some e) (some c) none = refl
session_of-fields t (some e) (some c) (some sender) = refl
session_of-fields t (some e) (some c) (some receiver) = refl

append-injective : (a b suffix : Text) → a ++ suffix ≡ b ++ suffix → a ≡ b
append-injective [] [] suffix e = refl
append-injective [] (y ∷ b) suffix e = absurd (omega (arith, ap length e, length-append b suffix))
append-injective (x ∷ a) [] suffix e = absurd (omega (arith, ap length e, length-append a suffix))
append-injective (x ∷ a) (y ∷ b) suffix e = ground (arith, e, append-injective a b suffix)

-- A key of another Room.
key_for-injective : (a b : Text) → key_for a ≡ key_for b → a ≡ b
key_for-injective a b e = append-injective a b (codes ".session") (ap (drop 12) e)

-- When what was written is what is read: neither access throws, or both do, or just the write does and
-- the browser held no session of the Room.
abbrev pub reaches : Bool → Bool → Text → Storage → Bool
reaches false false room s = true
reaches false true room s = false
reaches true true room s = true
reaches true false room s = elim (lookup (key_for room) s.session) [ none ↦ true | some v ↦ false ]

module _ (j : Json) (write_throws read_throws : Bool) (room : Text) (session : RoomSession)
    (s : Storage) where
  get_item-store :
      reaches write_throws read_throws room s ≡ true
      → get_item read_throws (key_for room) (store j write_throws room session s)
        ≡ some (j.stringify session)
  unfolding get_item store set_item
  get_item-store kept =
      let key = key_for room in
      ground (
        arith,
        kept,
        lookup-insert key key (j.stringify session) s.session,
        lookup-insert key key (j.stringify session) s.fallback,
        text_beq_iff key key,
      )

  get_item-other :
      (other : Text)
      → other ≢ room
      → get_item read_throws (key_for other) (store j write_throws room session s)
        ≡ get_item read_throws (key_for other) s
  unfolding get_item store set_item
  get_item-other other n =
      let key = key_for room in
      ground (
        arith,
        n,
        lookup-insert key (key_for other) (j.stringify session) s.session,
        lookup-insert key (key_for other) (j.stringify session) s.fallback,
        text_beq_iff (key_for other) key,
        key_for-injective other room,
      )

  -- A session that is stored for a Room is read for it with all its fields, and what is read for
  -- another Room is as before; where JSON gives back what was written, and what is written reaches the
  -- reader: neither access throws, or both do, or just the write does and the browser held no session
  -- of the Room.
  pub get-store :
      (other : Text)
      → IsJson j
      → reaches write_throws read_throws room s ≡ true
      → other ≢ room
      → let s' = store j write_throws room session s in
        (get j read_throws room s' ≡ some session)
        × (get j read_throws other s' ≡ get j read_throws other s)
  unfolding get
  get-store other json kept n =
      let same =
        session_of-fields session.token session.expires_at session.created_at session.role in
      (
        ground (arith, get_item-store kept, json session, same),
        ground (arith, get_item-other other n),
      )
