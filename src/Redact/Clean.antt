-- ===== src/Redact/Clean.antt =====
-- A document that the redaction returns is clean (`redact_text` of app/utils/pdf_document.py).
use tools_backend.Base.{
  ℕ, zero, suc, ◌+◌, ◌<◌, ◌≡◌, refl, sym, ap, ◌∙◌, inl, inr, true, false, ◌&&◌, not, some, List, [],
  ◌∷◌, map, arith, ◌==◌, Bool-cases, length, is_empty, All, ok, >>=-eq-ok, raise_if-eq-ok, Text,
  not-false,
}
use tools_backend.Ocr.Words.{Counter, key_of}
use tools_backend.Redact.Areas.{
  Floats, Area, nothing_asked, password_protected, no_pages, nothing_redacted, missing_terms,
  areas_by_page,
}
use tools_backend.Redact.Steps.{
  Fitz, terms_of, missing_in, checked_hits, redact_pages, redact_terms, redact_text,
}
use tools_backend.Redact.Laws.{Laws}
use tools_backend.Redact.Pages.{plus_found, plus_pages, GoneFrom, redact_pages_lem}

module _ (floats : Floats) (fitz : Fitz floats) (laws : Laws fitz) where
  -- No page of the document has the term.
  abbrev pub IsGone : ℕ → fitz.Document → Text → Type 0
  IsGone count d t = (j : ℕ) → j < count → fitz.search_for d j t ≡ []

  -- The matches of a term on n pages from i on
  abbrev pub matches : ℕ → ℕ → fitz.Document → Text → ℕ
  matches zero i d t = 0
  matches (suc n) i d t = length (fitz.search_for d i t) + matches n (suc i) d t

  abbrev pub IsFound : ℕ → fitz.Document → Text → Type 0
  IsFound count d t = 0 < matches count 0 d t

  abbrev with_matches : ℕ → ℕ → fitz.Document → Counter → Counter
  with_matches n i d [] = []
  with_matches n i d ((t, m) ∷ hits) = (t, m + matches n i d t) ∷ with_matches n i d hits

  with_matches-suc :
      (n i : ℕ) (d : fitz.Document) (hits : Counter)
      → with_matches n (suc i) d (plus_found floats fitz laws i d hits)
        ≡ with_matches (suc n) i d hits
  with_matches-suc n i d [] = refl
  with_matches-suc n i d ((t, m) ∷ hits) =
      rw (with_matches-suc n i d hits)
        (ap (λ k. (t, k) ∷ with_matches (suc n) i d hits) (omega arith))

  with_matches-zero : (i : ℕ) (d : fitz.Document) (hits : Counter) → with_matches 0 i d hits ≡ hits
  with_matches-zero i d [] = refl
  with_matches-zero i d ((t, m) ∷ hits) =
      rw (with_matches-zero i d hits) (ap (λ k. (t, k) ∷ hits) (omega arith))

  plus_pages_lem :
      (n i : ℕ) (d : fitz.Document) (hits : Counter)
      → plus_pages floats fitz laws n i d hits ≡ with_matches n i d hits
  plus_pages_lem zero i d hits = sym (with_matches-zero i d hits)
  plus_pages_lem (suc n) i d hits =
      plus_pages_lem n (suc i) d (plus_found floats fitz laws i d hits)
      ∙ with_matches-suc n i d hits

  -- The terms, none of which has been looked for
  abbrev unseen : List Text → Counter
  unseen terms = map (λ term. (term, 0)) terms

  key_of-unseen : (terms : List Text) → map key_of (unseen terms) ≡ terms
  key_of-unseen [] = refl
  key_of-unseen (t ∷ terms) = ap (λ ts. t ∷ ts) (key_of-unseen terms)

  none_missing :
      (n : ℕ) (d : fitz.Document) (terms : List Text)
      → is_empty (missing_in floats fitz (with_matches n 0 d (unseen terms))) ≡ true
      → All (IsFound n d) terms
  none_missing n d [] h = tt
  none_missing n d (t ∷ terms) h = elim (Bool-cases (0 + matches n 0 d t == 0)) [
    | inl never ↦ let no : false ≡ true = rw never at h in cc
    | inr seen ↦
        let pos : 0 < matches n 0 d t = ground arith in (pos, none_missing n d terms (rw seen at h))
  ]

  checked_hits-inversion :
      (d d' : fitz.Document) (hits : Counter) (n k : ℕ)
      → checked_hits floats fitz (d, hits, n) ≡ ok (d', k)
      → (is_empty (missing_in floats fitz hits) ≡ true) × (d ≡ d') × (n ≡ k) × (0 < k)
  checked_hits-inversion d d' hits n k h =
      let (found, h1) =
        raise_if-eq-ok (not (is_empty (missing_in floats fitz hits)))
          (missing_terms (missing_in floats fitz hits)) _ h in
      let (some_region, h2) = raise_if-eq-ok (n == 0) nothing_redacted _ h1 in
      let same : n ≡ k = cc in
      (not-false (is_empty (missing_in floats fitz hits)) found, cc, same, ground arith)

  all-IsGone :
      (n : ℕ) (d : fitz.Document) (ts : List Text)
      → All (GoneFrom floats fitz laws n 0 d) ts
      → All (IsGone n d) ts
  all-IsGone n d [] h = tt
  all-IsGone n d (t ∷ ts) (gone, rest) =
      (λ j lt. gone j (omega arith) (omega arith), all-IsGone n d ts rest)

  redact_terms-IsGone :
      (terms : List Text) (areas : List (Area floats.F)) (d d' : fitz.Document) (k : ℕ)
      → redact_terms floats fitz terms areas (some d) ≡ ok (d', k)
      → All (IsGone (fitz.page_count d) d') terms
        × All (IsFound (fitz.page_count d) d) terms
        × (0 < k)
  redact_terms-IsGone terms areas d d' k h =
      let count = fitz.page_count d in
      let (open_, h1) = raise_if-eq-ok (fitz.needs_pass d) password_protected _ h in
      let (pages, h2) = raise_if-eq-ok (count == 0) no_pages _ h1 in
      let (grouped, h3, h4) = >>=-eq-ok (areas_by_page floats count areas) _ h2 in
      let (d1, hits, n) = redact_pages floats fitz count 0 grouped (unseen terms) d in
      let (found, same, as_many, pos) = checked_hits-inversion d1 d' hits n k h4 in
      let (early, gone, counted) =
        redact_pages_lem floats fitz laws count 0 grouped (unseen terms) d in
      let seen = counted ∙ plus_pages_lem count 0 d (unseen terms) in
      (
        rw (← same) (all-IsGone count d1 terms (rw (key_of-unseen terms) at gone)),
        none_missing count d terms (rw (← seen) found),
        pos,
      )

  -- A redaction that succeeds marks at least one region, every term that was asked for was somewhere
  -- in the document, and in the document that is saved no page has any of the terms, if PyMuPDF removes
  -- the text under the marks of a page and marking, covering and drawing leave the other text alone.
  pub redact_text-IsGone :
      (texts : List Text) (areas : List (Area floats.F)) (d d' : fitz.Document) (k : ℕ)
      → redact_text floats fitz texts areas (some d) ≡ ok (d', k)
      → All (IsGone (fitz.page_count d) d') (terms_of texts)
        × All (IsFound (fitz.page_count d) d) (terms_of texts)
        × (0 < k)
  unfolding redact_text
  redact_text-IsGone texts areas d d' k h =
      let (asked, h1) =
        raise_if-eq-ok (is_empty (terms_of texts) && is_empty areas) nothing_asked _ h in
      redact_terms-IsGone (terms_of texts) areas d d' k h1
