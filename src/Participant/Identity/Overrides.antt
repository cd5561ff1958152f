-- ===== src/Participant/Identity/Overrides.antt =====
-- What an edited name can be.
use synxor.Common.{
  ◌≤◌, ◌<◌, ◌≡◌, false, Option, none, some, [], ◌∷◌, length, take, length-take, Text, arith,
}
use synxor.Participant.Identity.{max_display_name_chars, sanitize_display_name, trim, collapse}

-- An edited name that is kept has at least one code unit and at most forty.
pub sanitize_display_name-length :
    (name : Option Text) (s : Text)
    → sanitize_display_name name ≡ some s
    → (0 < length s) × (length s ≤ max_display_name_chars)
unfolding sanitize_display_name
sanitize_display_name-length none s h = absurd (ground arith)
sanitize_display_name-length (some name) s h = from (trim (collapse false name)) h
  where
    from :
        (x : Text)
        → (elim x [ [] ↦ none | c ∷ t ↦ some (take max_display_name_chars (c ∷ t)) ]) ≡ some s
        → (0 < length s) × (length s ≤ max_display_name_chars)
    from [] e = absurd (ground arith)
    from (c ∷ t) e = ground (arith, length-take max_display_name_chars (c ∷ t))
