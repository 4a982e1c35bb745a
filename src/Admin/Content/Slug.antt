-- ===== src/Admin/Content/Slug.antt =====
-- The characters of a generated slug (`_slugify` of app/services/admin.py).
use tools_backend.Base.{
  ℕ, ◌≡◌, refl, inl, inr, Bool, true, false, ◌||◌, [], ◌∷◌, ◌==◌, Bool-cases, is_empty, All, Text,
  is_space, lstrip_by, strip_by, lower, All-reverse,
}
use tools_backend.Admin.Content.{is_slug_character, dashed, slug_or, slugify}

-- A lower-case letter, a digit or a dash.
abbrev pub IsSlugCharacter : ℕ → Type 0
IsSlugCharacter c = (is_slug_character c || (c == b'-')) ≡ true

abbrev pub AreSlugCharacters : Text → Type 0
AreSlugCharacters t = All IsSlugCharacter t

dashed-characters : (in_run : Bool) (t : Text) → AreSlugCharacters (dashed in_run t)
unfolding dashed
dashed-characters in_run [] = tt
dashed-characters in_run (c ∷ t) = elim (Bool-cases (is_slug_character c)) [
  | inl kept ↦ rw kept (rw kept refl, dashed-characters false t)
  | inr other ↦ elim (Bool-cases in_run) [
    | inl inside ↦ rw (other, inside) (dashed-characters true t)
    | inr first ↦ rw (other, first) (refl, dashed-characters true t)
  ]
]

All-lstrip_by : (P : ℕ → Type 0) (p : ℕ → Bool) (t : Text) → All P t → All P (lstrip_by p t)
All-lstrip_by P p [] all = tt
All-lstrip_by P p (c ∷ t) (here, all) = elim (Bool-cases (p c)) [
  | inl taken ↦ rw taken (All-lstrip_by P p t all)
  | inr kept ↦ rw kept (here, all)
]

All-strip_by : (P : ℕ → Type 0) (p : ℕ → Bool) (t : Text) → All P t → All P (strip_by p t)
unfolding strip_by
All-strip_by P p t all =
    All-reverse P _ (All-lstrip_by P p _ (All-reverse P _ (All-lstrip_by P p t all)))

slug_or-characters :
    (slug fresh : Text)
    → AreSlugCharacters slug
    → AreSlugCharacters fresh
    → is_empty fresh ≡ false
    → AreSlugCharacters (slug_or slug fresh) × (is_empty (slug_or slug fresh) ≡ false)
slug_or-characters [] fresh all all' full = (all', full)
slug_or-characters (c ∷ t) fresh all all' full = (all, refl)

-- The slug that a title gives is not empty and has only lower-case letters, digits and dashes; so
-- has the random text that stands in for it when the title has no letter and no digit.
pub slugify-characters :
    (fresh value : Text)
    → AreSlugCharacters fresh
    → is_empty fresh ≡ false
    → AreSlugCharacters (slugify fresh value) × (is_empty (slugify fresh value) ≡ false)
unfolding slugify
slugify-characters fresh value all full =
    slug_or-characters _ fresh
      (All-strip_by IsSlugCharacter (λ c. c == b'-') _
        (dashed-characters false (lower (strip_by is_space value))))
      all full
