-- ===== src/Transfer/Download/Follows.antt =====
-- What a download yields while its upload is under way.
use synxor.Common.{
  ℕ, zero, suc, ◌+◌, ◌*◌, ◌≤◌, ◌≡◌, ◌≢◌, refl, subst, sym, ap, ◌∙◌, Bool, true, false, has, ◌==◌,
  none, some, List, [], ◌∷◌, ◌++◌, length, take, drop, take-append-drop, All, arith, Option-cases,
  Bool-cases, inl, inr,
}
use synxor.Storage.Key.{ObjectKey, file_object_key, chunk_object_key}
use synxor.Storage.Objects.{Bytes, Objects, get_object}
use synxor.Transfer.Errors.{storage_failure}
use synxor.Transfer.Chunking.{chunk_size_bytes}
use synxor.Transfer.Chunking.Slices.{slice, drop-drop}
use synxor.Transfer.Download.{
  Observation, Ending, complete, waiting, broken, follow_rest, follow_upload,
}
use synxor.Transfer.Sessions.{UploadSession, get}
use synxor.Transfer.Upload.State.{Api}
use synxor.Transfer.Upload.Complete.{Receives, IsDelivered}

-- What storage and the sessions show of an upload of the content, at any time from its first
-- request on: while the session is there it has the content's number of chunks, and the object of a
-- received chunk is that part of the content, unless assembly has removed it; once the session is
-- gone, the final object is the content.
pub record Shows (content : Bytes) (room t total : ℕ) (o : Observation) : Type 0 where
  pub counted : (m : UploadSession) → get t o.sessions ≡ some m → m.total_chunks ≡ total
  pub parts :
      (m : UploadSession) (i : ℕ) (chunk : Bytes)
      → get t o.sessions ≡ some m
      → has i m.received_chunks ≡ true
      → get_object (chunk_object_key room t i) 0 o.objects ≡ some chunk
      → chunk ≡ slice chunk_size_bytes i content
  pub whole :
      get t o.sessions ≡ none → get_object (file_object_key room t) 0 o.objects ≡ some content

-- What is right about the bytes yielded from chunk `i` on: they begin the rest of the content, and
-- are all of it when the stream ends.
pub record Continues (content : Bytes) (i : ℕ) (result : Bytes × Ending) : Type 0 where
  pub rest : Bytes
  pub begins : result.0 ++ rest ≡ drop (i * chunk_size_bytes) content
  pub ends : result.1 ≡ complete → rest ≡ []

drop-split :
    (i : ℕ) (content : Bytes)
    → drop (i * chunk_size_bytes) content
      ≡ slice chunk_size_bytes i content ++ drop ((i + 1) * chunk_size_bytes) content
unfolding slice
drop-split i content =
    let e : (i + 1) * chunk_size_bytes ≡ i * chunk_size_bytes + chunk_size_bytes = omega arith in
    rw (e, ← drop-drop chunk_size_bytes (i * chunk_size_bytes) content)
      (sym (take-append-drop chunk_size_bytes (drop (i * chunk_size_bytes) content)))

drop_all : (n : ℕ) (xs : Bytes) → length xs ≤ n → drop n xs ≡ []
drop_all zero [] h = refl
drop_all zero (x ∷ xs) h = absurd (omega arith)
drop_all (suc n) [] h = refl
drop_all (suc n) (x ∷ xs) h = drop_all n xs (omega arith)

append-nil : (xs : Bytes) → xs ++ [] ≡ xs
append-nil [] = refl
append-nil (x ∷ xs) = ap (◌∷◌ x) (append-nil xs)

take-length : (xs ys : Bytes) → take (length xs) (xs ++ ys) ≡ xs
take-length [] ys = refl
take-length (x ∷ xs) ys = ap (◌∷◌ x) (take-length xs ys)

append_assoc : (xs ys zs : Bytes) → (xs ++ ys) ++ zs ≡ xs ++ (ys ++ zs)
append_assoc [] ys zs = refl
append_assoc (x ∷ xs) ys zs = ap (◌∷◌ x) (append_assoc xs ys zs)

get_object-whole :
    (content : Bytes) (k : ObjectKey) (n : ℕ) (o : Objects)
    → get_object k 0 o ≡ some content
    → get_object k n o ≡ some (drop n content)
unfolding get_object
get_object-whole content k n o h = ground arith

All-snoc :
    (P : Observation → Type 0) (os : List Observation) (o : Observation)
    → All P os
    → P o
    → All P (os ++ o ∷ [])
All-snoc P [] o hs h = (h, tt)
All-snoc P (x ∷ os) o hs h = (hs.0, All-snoc P os o hs.1 h)

module _ (content : Bytes) (room t total : ℕ)
    (covers : length content ≤ total * chunk_size_bytes) where
  -- Nothing is yielded yet.
  stays : (i : ℕ) (e : Ending) → e ≢ complete → Continues content i ([], e)
  stays i e open_end = record {
    rest = drop (i * chunk_size_bytes) content;
    begins = refl;
    ends = λ h. absurd (open_end h);
  }

  all_of_rest : (i : ℕ) → Continues content i (drop (i * chunk_size_bytes) content, complete)
  all_of_rest i = record {
    rest = [];
    begins = append-nil (drop (i * chunk_size_bytes) content);
    ends = λ x. refl;
  }

  moved : (i : ℕ) (x y : Bytes × Ending) → y ≡ x → Continues content i x → Continues content i y
  moved i x y e c = subst (Continues content i) (sym e) c

  follow_rest-Continues :
      (i : ℕ) (o : Observation)
      → get_object (file_object_key room t) 0 o.objects ≡ some content
      → Continues content i (follow_rest (file_object_key room t) i o)
  unfolding follow_rest
  follow_rest-Continues i o h = elim (Bool-cases o.fails) [
    | inl e ↦ moved i _ _ (ground (arith, e)) (stays i (broken storage_failure) λ x. cc)
    | inr e ↦
        moved i _ _
          (ground (
            arith,
            e,
            get_object-whole content (file_object_key room t) (i * chunk_size_bytes) o.objects h,
          ))
          (all_of_rest i)
  ]

  last_part :
      (i : ℕ) → i + 1 ≡ total → Continues content i (slice chunk_size_bytes i content, complete)
  last_part i e = record {
    rest = [];
    begins =
        let none_left : drop ((i + 1) * chunk_size_bytes) content ≡ [] =
          drop_all ((i + 1) * chunk_size_bytes) content (rw e covers) in
        append-nil (slice chunk_size_bytes i content)
        ∙ sym (
            drop-split i content
            ∙ ap (λ xs. slice chunk_size_bytes i content ++ xs) none_left
            ∙ append-nil (slice chunk_size_bytes i content));
    ends = λ h. refl;
  }

  next_part :
      (i : ℕ) (later : Bytes) (e : Ending)
      → Continues content (i + 1) (later, e)
      → Continues content i (slice chunk_size_bytes i content ++ later, e)
  next_part i later e c = record {
    rest = c.rest;
    begins =
        append_assoc (slice chunk_size_bytes i content) later c.rest
        ∙ ap (λ xs. slice chunk_size_bytes i content ++ xs) c.begins
        ∙ sym (drop-split i content);
    ends = c.ends;
  }

  follow_upload-Continues :
      (os : List Observation) (i : ℕ)
      → All (Shows content room t total) os
      → Continues content i (follow_upload t room (file_object_key room t) os i)
  unfolding follow_upload
  follow_upload-Continues [] i h = stays i waiting λ x. cc
  follow_upload-Continues (o ∷ os) i h = elim (Option-cases (get t o.sessions)) [
    | inl e ↦ moved i _ _ (ground (arith, e)) (follow_rest-Continues i o (h.0.whole e))
    | inr (m, e) ↦ elim (Bool-cases (has i m.received_chunks)) [
      | inr b ↦ moved i _ _ (ground (arith, e, b)) (follow_upload-Continues os i h.1)
      | inl b ↦ elim (Bool-cases o.fails) [
        | inl f ↦ moved i _ _ (ground (arith, e, b, f)) (stays i (broken storage_failure) λ x. cc)
        | inr f ↦ elim (Option-cases (get_object (chunk_object_key room t i) 0 o.objects)) [
          | inl g ↦ moved i _ _ (ground (arith, e, b, f, g)) (follow_upload-Continues os i h.1)
          | inr (chunk, g) ↦ elim (Bool-cases (i + 1 == m.total_chunks)) [
            | inl l ↦
                moved i _ _ (ground (arith, e, b, f, g, l, h.0.parts m i chunk e b g))
                  (last_part i (ground (arith, l, h.0.counted m e)))
            | inr l ↦
                moved i _ _ (ground (arith, e, b, f, g, l, h.0.parts m i chunk e b g))
                  (next_part i _ _ (follow_upload-Continues os (i + 1) h.1))
          ]
        ]
      ]
    ]
  ]

  follow_upload-complete :
      (os : List Observation) (o : Observation) (i : ℕ)
      → All (λ x. x.fails ≡ false) os
      → o.fails ≡ false
      → get t o.sessions ≡ none
      → All (Shows content room t total) os
      → Shows content room t total o
      → (follow_upload t room (file_object_key room t) (os ++ o ∷ []) i).1 ≡ complete
  unfolding follow_upload
  follow_upload-complete [] o i q f gone hs h = ground (
    arith,
    f,
    gone,
    get_object-whole content (file_object_key room t) (i * chunk_size_bytes) o.objects
        (h.whole gone),
  )
  follow_upload-complete (x ∷ os) o i q f gone hs h = elim (Option-cases (get t x.sessions)) [
    | inl e ↦ ground (
      arith,
      e,
      q.0,
      get_object-whole content (file_object_key room t) (i * chunk_size_bytes) x.objects
          (hs.0.whole e),
    )
    | inr (m, e) ↦ ground (
      arith,
      e,
      q.0,
      follow_upload-complete os o i q.1 f gone hs.1 h,
      follow_upload-complete os o (i + 1) q.1 f gone hs.1 h,
    )
  ]

  -- When all turns of a download show an upload of the file, the bytes that it has yielded at any
  -- time are the first bytes of the file.
  pub follow_upload_prefix :
      (os : List Observation)
      → All (Shows content room t total) os
      → let bytes = (follow_upload t room (file_object_key room t) os 0).0 in
        take (length bytes) content ≡ bytes
  follow_upload_prefix os h =
      let c = follow_upload-Continues os 0 h in
      ap (take (length (follow_upload t room (file_object_key room t) os 0).0)) (sym c.begins)
      ∙ take-length (follow_upload t room (file_object_key room t) os 0).0 c.rest

  -- When all turns of a download show an upload of the file, a stream that has ended has yielded
  -- the whole file, also if storage removed chunks between two turns.
  pub follow_upload_ended :
      (os : List Observation)
      → All (Shows content room t total) os
      → (follow_upload t room (file_object_key room t) os 0).1 ≡ complete
      → (follow_upload t room (file_object_key room t) os 0).0 ≡ content
  follow_upload_ended os h e =
      let c = follow_upload-Continues os 0 h in
      sym (append-nil (follow_upload t room (file_object_key room t) os 0).0)
      ∙ ap (λ xs. (follow_upload t room (file_object_key room t) os 0).0 ++ xs) (sym (c.ends e))
      ∙ c.begins

  -- When all turns of a download show an upload of the file (whose chunks cover it), storage does
  -- not fail, and a turn finds the upload's session gone, then the download is over by that turn
  -- and has yielded the whole file.
  pub follow_upload_whole :
      (os : List Observation) (o : Observation)
      → All (Shows content room t total) os
      → Shows content room t total o
      → All (λ x. x.fails ≡ false) os
      → o.fails ≡ false
      → get t o.sessions ≡ none
      → follow_upload t room (file_object_key room t) (os ++ o ∷ []) 0 ≡ (content, complete)
  follow_upload_whole os o hs h q f gone =
      let c =
        follow_upload-Continues (os ++ o ∷ []) 0
          (All-snoc (Shows content room t total) os o hs h) in
      let e = follow_upload-complete os o 0 q f gone hs h in
      let all : (follow_upload t room (file_object_key room t) (os ++ o ∷ []) 0).0 ++ c.rest
          ≡ content =
        c.begins in
      ground (
        arith,
        e,
        all,
        c.ends e,
        append-nil (follow_upload t room (file_object_key room t) (os ++ o ∷ []) 0).0,
      )

-- An upload that is receiving the content shows it.
pub Receives-Shows :
    (content : Bytes) (t : ℕ) (m : UploadSession) (s : Api) (fails : Bool)
    → Receives content t m s
    → Shows content m.room_id t m.total_chunks
        (record { sessions = s.sessions; objects = s.objects; fails = fails })
Receives-Shows content t m s fails r = record {
  counted = λ n e. ground (arith, e, r.found);
  parts = λ n i chunk e h g. ground (arith, e, r.found, h, g, r.stored i);
  whole = λ e. absurd (ground (arith, e, r.found));
}

-- An upload that is over shows it too.
pub IsDelivered-Shows :
    (content : Bytes) (room t total : ℕ) (s : Api) (fails : Bool)
    → IsDelivered content room total t s
    → Shows content room t total
        (record { sessions = s.sessions; objects = s.objects; fails = fails })
IsDelivered-Shows content room t total s fails d = record {
  counted = λ n e. absurd (ground (arith, e, d.released));
  parts = λ n i chunk e h g. absurd (ground (arith, e, d.released));
  whole = λ e. d.whole;
}
