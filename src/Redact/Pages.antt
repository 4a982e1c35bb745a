-- ===== src/Redact/Pages.antt =====
-- What the redaction of the pages does to the text (`redact_text` of app/utils/pdf_document.py).
use tools_backend.Base.{
  ℕ, zero, suc, ◌+◌, ◌≤◌, ◌<◌, ◌≡◌, refl, ap, ◌∙◌, ◌≢◌, inl, inr, List, [], ◌∷◌, map, arith, ◌==◌,
  ==_iff, Bool-cases, length, All, Text,
}
use tools_backend.Ocr.Words.{Counter, key_of}
use tools_backend.Redact.Areas.{Floats, Spec, specs_on}
use tools_backend.Redact.Steps.{
  Fitz, black, Marked, mark_all, mark_terms, mark_areas, insert_images, draw_rects, applied,
  redact_page, redact_pages,
}
use tools_backend.Redact.Laws.{
  Laws, Extends, Extends-refl, Extends-trans, mark_all-Extends, mark_all-IsMarked,
  mark_areas-Extends, search_for-insert_images, search_for-draw_rects,
}

length_zero {ℓ} : {A : Type ℓ} (xs : List A) → length xs ≤ 0 → xs ≡ []
length_zero [] h = refl
length_zero (x ∷ xs) h = absurd (omega arith)

All-subst {ℓ κ} :
    {A : Type ℓ} (P Q : A → Type κ) (xs : List A) → ((x : A) → P x → Q x) → All P xs → All Q xs
All-subst P Q [] f _ = tt
All-subst P Q (x ∷ xs) f (p, h) = (f x p, All-subst P Q xs f h)

module _ (floats : Floats) (fitz : Fitz floats) (laws : Laws fitz) where
  -- The hits with those of a page of a document
  abbrev pub plus_found : ℕ → fitz.Document → Counter → Counter
  plus_found i d [] = []
  plus_found i d ((t, n) ∷ hits) = (t, n + length (fitz.search_for d i t)) ∷ plus_found i d hits

  plus_found-Extends :
      (i : ℕ) (d d' : fitz.Document) (hits : Counter)
      → Extends floats fitz laws d d'
      → plus_found i d' hits ≡ plus_found i d hits
  plus_found-Extends i d d' [] e = refl
  plus_found-Extends i d d' ((t, n) ∷ hits) e =
      rw (e.search_lem i t, plus_found-Extends i d d' hits e) refl

  -- Every match of a term on page i is marked, and counted among the regions.
  Covered : ℕ → fitz.Document → fitz.Document → ℕ → Text → Type 0
  Covered i d d' regions t =
      All (laws.IsMarked d' i) (fitz.search_for d i t) × (length (fitz.search_for d i t) ≤ regions)

  Covered-later :
      (i : ℕ) (d1 d2 d3 : fitz.Document) (m n : ℕ) (t : Text)
      → Extends floats fitz laws d1 d2
      → m ≤ n
      → Covered i d2 d3 m t
      → Covered i d1 d3 n t
  unfolding Covered
  Covered-later i d1 d2 d3 m n t e le (marked, few) =
      rw (← (e.search_lem i t)) (marked, omega arith)

  Covered-extended :
      (i : ℕ) (d d2 d3 : fitz.Document) (m n : ℕ) (t : Text)
      → Extends floats fitz laws d2 d3
      → m ≤ n
      → Covered i d d2 m t
      → Covered i d d3 n t
  unfolding Covered
  Covered-extended i d d2 d3 m n t e le (marked, few) = (
    All-subst (laws.IsMarked d2 i) (laws.IsMarked d3 i) (fitz.search_for d i t)
        (λ r. e.marks_lem i r) marked,
    omega arith,
  )

  mark_terms_lem :
      (i : ℕ) (hits : Counter) (d : fitz.Document)
      → let (d', hits', regions) = mark_terms floats fitz i hits d in
        Extends floats fitz laws d d'
        × (hits' ≡ plus_found i d hits)
        × All (Covered i d d' regions) (map key_of hits)
  unfolding Covered
  mark_terms_lem i [] d = (Extends-refl floats fitz laws d, refl, tt)
  mark_terms_lem i ((t, n) ∷ hits) d =
      let rects = fitz.search_for d i t in
      let d1 = mark_all floats fitz i black rects d in
      let e1 = mark_all-Extends floats fitz laws i black rects d in
      let (e, same, covered) = mark_terms_lem i hits d1 in
      let regions = (mark_terms floats fitz i hits d1).2 in
      let d2 = (mark_terms floats fitz i hits d1).0 in
      (
        Extends-trans floats fitz laws e1 e,
        ap (λ r. (t, n + length rects) ∷ r) (same ∙ plus_found-Extends i d d1 hits e1),
        (
          (
            All-subst (laws.IsMarked d1 i) (laws.IsMarked d2 i) rects (λ r. e.marks_lem i r)
                (mark_all-IsMarked floats fitz laws i black rects d),
            omega arith,
          ),
          All-subst (Covered i d1 d2 regions) (Covered i d d2 (length rects + regions))
              (map key_of hits)
              (λ u. Covered-later i d d1 d2 regions (length rects + regions) u e1 (omega arith))
              covered,
        ),
      )

  -- The text of the other pages is as before, and the terms are gone from page i.
  record Cleaned (i : ℕ) (d d' : fitz.Document) (terms : List Text) : Type 0 where
    pub others : (j : ℕ) (t : Text) → i ≢ j → fitz.search_for d' j t ≡ fitz.search_for d j t
    pub gone : All (λ (t : Text). fitz.search_for d' i t ≡ []) terms

  applied-Cleaned :
      (i : ℕ) (d : fitz.Document) (m : Marked floats fitz) (terms : List Text)
      → Extends floats fitz laws d m.document
      → All (Covered i d m.document m.regions) terms
      → Cleaned i d (applied floats fitz i m) terms
  unfolding Covered
  applied-Cleaned i d m terms e covered = elim (Bool-cases (m.regions == 0)) [
    | inl idle ↦
        let zero_regions = (==_iff m.regions 0).0 idle in
        rw idle (record {
          others = λ j t _. e.search_lem j t;
          gone =
              All-subst (Covered i d m.document m.regions)
                (λ t. fitz.search_for m.document i t ≡ []) terms
                (λ t c.
                  e.search_lem i t
                  ∙ length_zero (fitz.search_for d i t)
                      (let few = c.1 in omega (arith, zero_regions)))
                covered;
        })
    | inr busy ↦
        let d2 = fitz.apply_redactions i m.document in
        let painted = insert_images floats fitz i m.image_overlays d2 in
        let overlaid = λ (j : ℕ) (t : Text).
          search_for-draw_rects floats fitz laws i j m.fill_overlays painted t
          ∙ search_for-insert_images floats fitz laws i j m.image_overlays d2 t in
        rw busy (record {
          others = λ j t ne.
              overlaid j t ∙ laws.search_for-apply_ne i j m.document t ne ∙ e.search_lem j t;
          gone =
              All-subst (Covered i d m.document m.regions)
                (λ t. fitz.search_for (draw_rects floats fitz i m.fill_overlays painted) i t ≡ [])
                terms
                (λ t c.
                  overlaid i t ∙ laws.search_for-apply i m.document t (rw (e.search_lem i t) c.0))
                covered;
        })
  ]

  key_of-plus_found :
      (i : ℕ) (d : fitz.Document) (hits : Counter)
      → map key_of (plus_found i d hits) ≡ map key_of hits
  key_of-plus_found i d [] = refl
  key_of-plus_found i d ((t, n) ∷ hits) = ap (λ ts. t ∷ ts) (key_of-plus_found i d hits)

  redact_page_lem :
      (i : ℕ) (grouped : List (ℕ × Spec floats.F)) (hits : Counter) (d : fitz.Document)
      → let (d', hits', regions) = redact_page floats fitz i grouped hits d in
        Cleaned i d d' (map key_of hits) × (hits' ≡ plus_found i d hits)
  redact_page_lem i grouped hits d =
      let (d1, hits1, regions) = mark_terms floats fitz i hits d in
      let (e, same, covered) = mark_terms_lem i hits d in
      let m0 : Marked floats fitz = record {
        document = d1;
        image_overlays = [];
        fill_overlays = [];
        regions = regions;
      } in
      let m = mark_areas floats fitz i (specs_on i grouped) m0 in
      let (e', le) = mark_areas-Extends floats fitz laws i (specs_on i grouped) m0 in
      (
        applied-Cleaned i d m (map key_of hits) (Extends-trans floats fitz laws e e') (
            All-subst (Covered i d d1 regions) (Covered i d m.document m.regions) (map key_of hits)
              (λ t. Covered-extended i d d1 m.document regions m.regions t e' le) covered),
        same,
      )

  -- The hits with those of n pages from i on
  abbrev pub plus_pages : ℕ → ℕ → fitz.Document → Counter → Counter
  plus_pages zero i d hits = hits
  plus_pages (suc n) i d hits = plus_pages n (suc i) d (plus_found i d hits)

  plus_found-same :
      (i : ℕ) (d d' : fitz.Document) (hits : Counter)
      → ((t : Text) → fitz.search_for d' i t ≡ fitz.search_for d i t)
      → plus_found i d' hits ≡ plus_found i d hits
  plus_found-same i d d' [] e = refl
  plus_found-same i d d' ((t, n) ∷ hits) e = rw (e t, plus_found-same i d d' hits e) refl

  plus_pages-same :
      (n i : ℕ) (d d' : fitz.Document) (hits : Counter)
      → ((j : ℕ) (t : Text) → i ≤ j → fitz.search_for d' j t ≡ fitz.search_for d j t)
      → plus_pages n i d' hits ≡ plus_pages n i d hits
  plus_pages-same zero i d d' hits e = refl
  plus_pages-same (suc n) i d d' hits e =
      rw (plus_found-same i d d' hits (λ t. e i t (omega arith)))
        (plus_pages-same n (suc i) d d' (plus_found i d hits) (λ j t h. e j t (omega arith)))

  -- From page i to page i + n, the terms are gone.
  abbrev pub GoneFrom : ℕ → ℕ → fitz.Document → Text → Type 0
  GoneFrom n i d t = (j : ℕ) → i ≤ j → j < i + n → fitz.search_for d j t ≡ []

  gone_here :
      (i n : ℕ) (d1 d2 : fitz.Document) (t : Text)
      → fitz.search_for d2 i t ≡ fitz.search_for d1 i t
      → fitz.search_for d1 i t ≡ []
      → GoneFrom n (suc i) d2 t
      → GoneFrom (suc n) i d2 t
  gone_here i n d1 d2 t same now later j h h' = elim (Bool-cases (j == i)) [
    | inl at ↦ let e = (==_iff j i).0 at in rw e (same ∙ now)
    | inr past ↦ later j (ground arith) (omega arith)
  ]

  gone_all :
      (i n : ℕ) (d1 d2 : fitz.Document) (ts : List Text)
      → ((t : Text) → i < suc i → fitz.search_for d2 i t ≡ fitz.search_for d1 i t)
      → All (λ (t : Text). fitz.search_for d1 i t ≡ []) ts
      → All (GoneFrom n (suc i) d2) ts
      → All (GoneFrom (suc n) i d2) ts
  gone_all i n d1 d2 [] e _ _ = tt
  gone_all i n d1 d2 (t ∷ ts) e (now, nows) (later, laters) =
      (gone_here i n d1 d2 t (e t (omega arith)) now later, gone_all i n d1 d2 ts e nows laters)

  pub redact_pages_lem :
      (n i : ℕ) (grouped : List (ℕ × Spec floats.F)) (hits : Counter) (d : fitz.Document)
      → let (d', hits', regions) = redact_pages floats fitz n i grouped hits d in
        ((j : ℕ) (t : Text) → j < i → fitz.search_for d' j t ≡ fitz.search_for d j t)
        × All (GoneFrom n i d') (map key_of hits)
        × (hits' ≡ plus_pages n i d hits)
  redact_pages_lem zero i grouped hits d = (λ j t h. refl, none_yet (map key_of hits), refl)
    where
      none_yet : (ts : List Text) → All (GoneFrom 0 i d) ts
      none_yet [] = tt
      none_yet (t ∷ ts) = (λ j h h'. absurd (omega arith), none_yet ts)
  redact_pages_lem (suc n) i grouped hits d =
      let (d1, hits1, regions) = redact_page floats fitz i grouped hits d in
      let (cleaned, same) = redact_page_lem i grouped hits d in
      let (early, gone, counted) = redact_pages_lem n (suc i) grouped hits1 d1 in
      let keys = ap (map key_of) same ∙ key_of-plus_found i d hits in
      let d2 = (redact_pages floats fitz n (suc i) grouped hits1 d1).0 in
      (
        λ j t h. early j t (omega arith) ∙ cleaned.others j t (λ e. absurd (omega (arith, e))),
        gone_all i n d1 d2 (map key_of hits) (early i) cleaned.gone (rw keys at gone),
        counted
            ∙ plus_pages-same n (suc i) d d1 hits1
                (λ j t h. cleaned.others j t (λ e. absurd (omega (arith, e))))
            ∙ ap (plus_pages n (suc i) d) same,
      )
