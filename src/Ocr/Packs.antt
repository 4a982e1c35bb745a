-- ===== src/Ocr/Packs.antt =====
-- Language packs, and what the validation accepts (app/utils/ocr_language.py).
use tools_backend.Base.{
  ℕ, ◌≤◌, ◌≡◌, refl, ap, ◌∙◌, true, false, not, List, [], ◌∷◌, ◌++◌, arith, ◌==◌, ==_iff, length,
  keep_if, any, All, ok, Text, member, split,
}
use tools_backend.Ocr.Words.{join_by}
use tools_backend.Ocr.Languages.{
  supported_ocr_languages, max_ocr_languages, script_languages, latin_stopwords, parts_error,
  validate_ocr_languages,
}
use tools_backend.Ocr.Distinct.{AreDistinct, set_of-AreDistinct}

-- `split` undoes `join`, if the pieces are free of the separator.
abbrev IsPiece : ℕ → Text → Type 0
IsPiece sep t = any (λ c. c == sep) t ≡ false

any_cons : (sep c : ℕ) (t : Text) → IsPiece sep (c ∷ t) → ((c == sep) ≡ false) × IsPiece sep t
any_cons sep c t h = ground arith

split-piece : (sep : ℕ) (t : Text) → IsPiece sep t → split sep t ≡ t ∷ []
unfolding split
split-piece sep [] h = refl
split-piece sep (c ∷ t) h =
    let (other, rest) = any_cons sep c t h in rw other (rw (split-piece sep t rest) refl)

split-append : (sep : ℕ) (t u : Text) → IsPiece sep t → split sep (t ++ sep ∷ u) ≡ t ∷ split sep u
unfolding split
split-append sep [] u h = rw ((==_iff sep sep).1 refl) refl
split-append sep (c ∷ t) u h =
    let (other, rest) = any_cons sep c t h in rw other (rw (split-append sep t u rest) refl)

split-join_by :
    (sep : ℕ) (t : Text) (ts : List Text)
    → All (IsPiece sep) (t ∷ ts)
    → split sep (join_by sep (t ∷ ts)) ≡ t ∷ ts
split-join_by sep t [] (h, _) = split-piece sep t h
split-join_by sep t (u ∷ ts) (h, rest) =
    split-append sep t (join_by sep (u ∷ ts)) h ∙ ap (λ r. t ∷ r) (split-join_by sep u ts rest)

-- A pack that is installed, under a name free of the plus sign
abbrev pub IsPack : Text → Type 0
IsPack t = (member t supported_ocr_languages ≡ true) × IsPiece b'+' t

no_unknown :
    (ts : List Text) → All IsPack ts → keep_if (λ t. not (member t supported_ocr_languages)) ts ≡ []
no_unknown [] _ = refl
no_unknown (t ∷ ts) ((known, _), rest) = rw known (no_unknown ts rest)

pieces : (ts : List Text) → All IsPack ts → All (IsPiece b'+') ts
pieces [] _ = tt
pieces (t ∷ ts) ((_, piece), rest) = (piece, pieces ts rest)

parts_error-packs :
    (ts : List Text)
    → All IsPack ts
    → AreDistinct ts
    → length ts ≤ max_ocr_languages
    → parts_error ts ≡ ok tt
parts_error-packs ts packs distinct few =
    rw
      (no_unknown ts packs, set_of-AreDistinct ts distinct, (==_iff (length ts) (length ts)).1 refl)
      (ground arith)

pub validate-join_by :
    (t : Text) (ts : List Text)
    → All IsPack (t ∷ ts)
    → AreDistinct (t ∷ ts)
    → length (t ∷ ts) ≤ max_ocr_languages
    → validate_ocr_languages (join_by b'+' (t ∷ ts)) ≡ ok (join_by b'+' (t ∷ ts))
unfolding validate_ocr_languages
validate-join_by t ts packs distinct few =
    rw
      (
        split-join_by b'+' t ts (pieces (t ∷ ts) packs),
        parts_error-packs (t ∷ ts) packs distinct few,
      )
      refl

-- The tables
abbrev pub IsAccepted : Text × Text → Type 0
IsAccepted (script, language) = validate_ocr_languages language ≡ ok language

pub scripts-AreAccepted : All IsAccepted script_languages
unfolding validate_ocr_languages
scripts-AreAccepted = (
  refl,
  (
    refl,
    (
      refl,
      (
        refl,
        (
          refl,
          (
            refl,
            (
              refl,
              (refl, (refl, (refl, (refl, (refl, (refl, (refl, (refl, (refl, (refl, tt)))))))))),
            ),
          ),
        ),
      ),
    ),
  ),
)

pub languages-ArePacks : All (λ (s : Text × List Text). IsPack s.0) latin_stopwords
unfolding member
languages-ArePacks = (
  (refl, refl),
  (
    (refl, refl),
    (
      (refl, refl),
      (
        (refl, refl),
        (
          (refl, refl),
          ((refl, refl), ((refl, refl), ((refl, refl), ((refl, refl), ((refl, refl), tt))))),
        ),
      ),
    ),
  ),
)
