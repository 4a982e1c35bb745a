-- ===== src/Filenames/Sanitized.antt =====
-- What `sanitize_filename` guarantees (app/utils/filenames.py).
use tools_backend.Base.{
  ℕ, ◌-◌, ◌≡◌, refl, inl, inr, Bool, false, Option, none, some, [], ◌∷◌, map, ◌==◌, Bool-cases,
  length, take, All, All-append, All-take, Text, lstrip_by, strip_by, All-reverse, leb, ◌++◌, ◌≢◌,
  ◌+◌,
}
use tools_backend.Filenames.Paths.{rpartition, base_name, extend_before}
use tools_backend.Filenames.{
  is_reserved, split_name, is_unsafe, replace_unsafe, space_or_dot, or_else, trim_stem, with_suffix,
  stem_and_suffix, unreserved, finish, cleaned, sanitize_filename, max_filename_length,
}

-- A code point that may stand in a file name.
abbrev pub IsSafe : ℕ → Type 0
IsSafe c = is_unsafe c ≡ false

replace_unsafe-IsSafe : (c : ℕ) → IsSafe (replace_unsafe c)
replace_unsafe-IsSafe c = elim (Bool-cases (is_unsafe c)) [
  | inl bad ↦ rw bad
  | inr good ↦ rw (good, good)
]

map-replace_unsafe : (t : Text) → All IsSafe (map replace_unsafe t)
map-replace_unsafe [] = tt
map-replace_unsafe (c ∷ t) = (replace_unsafe-IsSafe c, map-replace_unsafe t)

module _ {ℓ} (P : ℕ → Type ℓ) where
  All-lstrip_by : (p : ℕ → Bool) (t : Text) → All P t → All P (lstrip_by p t)
  All-lstrip_by p [] h = tt
  All-lstrip_by p (c ∷ t) (hc, h) = elim (Bool-cases (p c)) [
    | inl off ↦ rw off (All-lstrip_by p t h)
    | inr on ↦ rw on (hc, h)
  ]

  All-strip_by : (p : ℕ → Bool) (t : Text) → All P t → All P (strip_by p t)
  unfolding strip_by
  All-strip_by p t h = All-reverse P _ (All-lstrip_by p _ (All-reverse P _ (All-lstrip_by p t h)))

  -- Both parts of a split at the last separator consist of characters of the text.
  abbrev BothParts : Option (Text × Text) → Type ℓ
  BothParts none = Unit
  BothParts (some (before, after)) = All P before × All P after

  BothParts-extend :
      (sep c : ℕ) (t : Text) (o : Option (Text × Text))
      → P c
      → All P t
      → BothParts o
      → BothParts (extend_before sep c t o)
  BothParts-extend sep c t none pc h both = elim (Bool-cases (c == sep)) [
    | inl is_sep ↦ rw is_sep (tt, h)
    | inr other ↦ rw other tt
  ]
  BothParts-extend sep c t (some (before, after)) pc h (hb, ha) = ((pc, hb), ha)

  BothParts-rpartition : (sep : ℕ) (t : Text) → All P t → BothParts (rpartition sep t)
  unfolding rpartition
  BothParts-rpartition sep [] h = tt
  BothParts-rpartition sep (c ∷ t) (pc, h) =
      BothParts-extend sep c t (rpartition sep t) pc h (BothParts-rpartition sep t h)

  All-or_else : (s fallback : Text) → All P s → All P fallback → All P (or_else s fallback)
  All-or_else [] fallback h k = k
  All-or_else (c ∷ s) fallback h k = h

  All-stem_and_suffix :
      (name : Text) (o : Option (Text × Text))
      → All P name
      → BothParts o
      → All P (stem_and_suffix name o).0 × All P (stem_and_suffix name o).1
  All-stem_and_suffix name none h both = (h, tt)
  All-stem_and_suffix name (some parts) h both = both

  All-split_name :
      (name : Text) → All P name → All P (split_name name).0 × All P (split_name name).1
  unfolding split_name
  All-split_name name h =
      All-stem_and_suffix name (rpartition b'.' name) h (BothParts-rpartition b'.' name h)

unreserved-IsSafe : (stem : Text) → All IsSafe stem → All IsSafe (unreserved stem)
unreserved-IsSafe stem h = elim (Bool-cases (is_reserved stem)) [
  | inl device ↦ rw device (All-append IsSafe stem (b'_' ∷ []) h (refl, tt))
  | inr other ↦ rw other h
]

trim_stem-IsSafe : (stem suffix : Text) → All IsSafe stem → All IsSafe (trim_stem stem suffix)
trim_stem-IsSafe stem suffix h = elim (Bool-cases (leb (length suffix + 1) max_filename_length)) [
  | inl short ↦ rw short (All-take IsSafe (max_filename_length - (length suffix + 1)) stem h)
  | inr long ↦
      rw long (All-take IsSafe (length stem - (length suffix + 1 - max_filename_length)) stem h)
]

with_suffix-IsSafe :
    (fallback stem suffix : Text)
    → All IsSafe fallback
    → All IsSafe stem
    → All IsSafe suffix
    → All IsSafe (with_suffix fallback stem suffix)
with_suffix-IsSafe fallback stem [] hf hs h =
    All-or_else IsSafe (take max_filename_length stem) fallback
      (All-take IsSafe max_filename_length stem hs) hf
with_suffix-IsSafe fallback stem (c ∷ suffix) hf hs h =
    All-append IsSafe (or_else (trim_stem stem (c ∷ suffix)) fallback) (b'.' ∷ c ∷ suffix)
      (All-or_else IsSafe (trim_stem stem (c ∷ suffix)) fallback
        (trim_stem-IsSafe stem (c ∷ suffix) hs) hf)
      (refl, h)

finish-IsSafe :
    (fallback name : Text)
    → All IsSafe fallback
    → All IsSafe name
    → All IsSafe (finish fallback name)
unfolding finish
finish-IsSafe fallback [] hf h = hf
finish-IsSafe fallback (c ∷ name) hf h =
    let (hs, hx) = All-split_name IsSafe (c ∷ name) h in
    with_suffix-IsSafe fallback (unreserved (split_name (c ∷ name)).0) (split_name (c ∷ name)).1 hf
      (unreserved-IsSafe (split_name (c ∷ name)).0 hs) hx

or_else-ne-nil : (s fallback : Text) → fallback ≢ [] → or_else s fallback ≢ []
or_else-ne-nil [] fallback h = h
or_else-ne-nil (c ∷ s) fallback h = λ e. cc

append-ne-nil : (s : Text) (c : ℕ) (t : Text) → s ++ c ∷ t ≢ []
append-ne-nil [] c t = λ e. cc
append-ne-nil (d ∷ s) c t = λ e. cc

finish-ne-nil : (fallback name : Text) → fallback ≢ [] → finish fallback name ≢ []
unfolding finish
finish-ne-nil fallback [] h = h
finish-ne-nil fallback (c ∷ name) h = go (split_name (c ∷ name)).0 (split_name (c ∷ name)).1
  where
    go : (stem suffix : Text) → with_suffix fallback (unreserved stem) suffix ≢ []
    go stem [] = or_else-ne-nil (take max_filename_length (unreserved stem)) fallback h
    go stem (d ∷ suffix) =
        append-ne-nil (or_else (trim_stem (unreserved stem) (d ∷ suffix)) fallback) b'.'
          (d ∷ suffix)

-- Whatever the client sends and however Unicode normalisation acts: a sanitised name is not empty,
-- and holds no path separator, no control character and none of the other unsafe characters.
pub sanitize_filename-IsSafe :
    (nfkc : Text → Text) (fallback name : Text)
    → fallback ≢ []
    → All IsSafe fallback
    → (sanitize_filename nfkc fallback name ≢ [])
      × All IsSafe (sanitize_filename nfkc fallback name)
unfolding sanitize_filename cleaned
sanitize_filename-IsSafe nfkc fallback name nonempty safe = (
  finish-ne-nil fallback (cleaned nfkc name) nonempty,
  finish-IsSafe fallback (cleaned nfkc name) safe (
      All-strip_by IsSafe space_or_dot (map replace_unsafe (nfkc (base_name name)))
        (map-replace_unsafe (nfkc (base_name name)))),
)
