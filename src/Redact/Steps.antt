-- ===== src/Redact/Steps.antt =====
-- The redaction of the pages (`redact_text` of app/utils/pdf_document.py). PyMuPDF is a parameter;
-- every operation on a page gives the document behind it.
use tools_backend.Base.{
  ℕ, zero, suc, ◌+◌, Bool, ◌&&◌, ◌||◌, not, Option, none, some, List, [], ◌∷◌, ◌++◌, map, ◌==◌,
  if◌then◌else◌, length, keep_if, is_empty, Result, ok, err, raise_if, Text, codes, text_eq,
  is_space, strip_by, ◌>>=◌,
}
use tools_backend.Ocr.Words.{Counter, counter, key_of}
use tools_backend.Redact.Areas.{
  Area, Corners, Fill, Floats, RedactError, Rgb, Spec, areas_by_page, missing_terms, no_pages,
  nothing_asked, nothing_redacted, password_protected, solid, specs_on, unfilled, unreadable,
}

-- What the tool uses of PyMuPDF; the numbers of a page count from 0.
pub record Fitz (floats : Floats) : Type 1 where
  pub Document : Type 0
  pub Rect : Type 0
  pub Png : Type 0
  pub needs_pass : Document → Bool
  pub page_count : Document → ℕ
  pub search_for : Document → ℕ → Text → List Rect
  -- the rectangle cut to the page; `none` is an empty one
  pub clipped : Document → ℕ → Corners floats.F → Option Rect
  -- `_obscured_region_png`
  pub obscured : Document → ℕ → Rect → Text → Png
  pub add_redact_annot : ℕ → Rect → Fill → Document → Document
  pub apply_redactions : ℕ → Document → Document
  pub insert_image : ℕ → Rect × Png → Document → Document
  pub draw_rect : ℕ → Rect × Rgb × floats.F → Document → Document

-- `[t.strip() for t in texts if t and t.strip()]`, each once
unfoldable pub terms_of : List Text → List Text
unfolding counter strip_by
terms_of texts =
    map key_of (counter (keep_if (λ t. not (is_empty t)) (map (strip_by is_space) texts)))

abbrev pub black : Fill
black = solid (0, 0, 0)

abbrev pub white : Fill
white = solid (255, 255, 255)

module _ (floats : Floats) (fitz : Fitz floats) where
  abbrev pub mark_all : ℕ → Fill → List fitz.Rect → fitz.Document → fitz.Document
  mark_all i fill [] d = d
  mark_all i fill (rect ∷ rects) d = mark_all i fill rects (fitz.add_redact_annot i rect fill d)

  -- The loop over the terms of a page: the document, the hits of the terms, and the regions
  abbrev pub with_term : Text → ℕ → ℕ → fitz.Document × Counter × ℕ → fitz.Document × Counter × ℕ
  with_term term n found (d, hits, regions) = (d, (term, n + found) ∷ hits, found + regions)

  abbrev pub mark_terms : ℕ → Counter → fitz.Document → fitz.Document × Counter × ℕ
  mark_terms i [] d = (d, [], 0)
  mark_terms i ((term, n) ∷ hits) d =
      let rects = fitz.search_for d i term in
      with_term term n (length rects) (mark_terms i hits (mark_all i black rects d))

  -- The overlays that wait until the redactions of a page are applied, and its marked areas
  pub record Marked : Type 0 where
    pub document : fitz.Document
    pub image_overlays : List (fitz.Rect × fitz.Png)
    pub fill_overlays : List (fitz.Rect × Rgb × floats.F)
    pub regions : ℕ

  abbrev pub mark_colored : ℕ → Spec floats.F → fitz.Rect → Marked → Marked
  mark_colored i spec rect m =
      if floats.is_opaque spec.opacity
      then record m {
        document = fitz.add_redact_annot i rect (solid spec.color) m.document;
        regions = suc m.regions;
      }
      else record m {
        document = fitz.add_redact_annot i rect unfilled m.document;
        fill_overlays = m.fill_overlays ++ (rect, spec.color, spec.opacity) ∷ [];
        regions = suc m.regions;
      }

  abbrev pub mark_filled : ℕ → Fill → fitz.Rect → Marked → Marked
  mark_filled i fill rect m = record m {
    document = fitz.add_redact_annot i rect fill m.document;
    regions = suc m.regions;
  }

  abbrev pub mark_obscured : ℕ → Spec floats.F → fitz.Rect → Marked → Marked
  mark_obscured i spec rect m = record m {
    document = fitz.add_redact_annot i rect white m.document;
    image_overlays = m.image_overlays ++ (rect, fitz.obscured m.document i rect spec.mode) ∷ [];
    regions = suc m.regions;
  }

  abbrev pub mark_area : ℕ → Spec floats.F → Marked → Option fitz.Rect → Marked
  mark_area i spec m none = m
  mark_area i spec m (some rect) =
      if text_eq spec.mode (codes "blur") || text_eq spec.mode (codes "pixelate")
      then mark_obscured i spec rect m
      else if text_eq spec.mode (codes "white")
      then mark_filled i white rect m
      else if text_eq spec.mode (codes "color")
      then mark_colored i spec rect m
      else mark_filled i black rect m

  abbrev pub mark_areas : ℕ → List (Spec floats.F) → Marked → Marked
  mark_areas i [] m = m
  mark_areas i (spec ∷ specs) m =
      mark_areas i specs (mark_area i spec m (fitz.clipped m.document i spec.rect))

  abbrev pub insert_images : ℕ → List (fitz.Rect × fitz.Png) → fitz.Document → fitz.Document
  insert_images i [] d = d
  insert_images i (overlay ∷ overlays) d = insert_images i overlays (fitz.insert_image i overlay d)

  abbrev pub draw_rects : ℕ → List (fitz.Rect × Rgb × floats.F) → fitz.Document → fitz.Document
  draw_rects i [] d = d
  draw_rects i (overlay ∷ overlays) d = draw_rects i overlays (fitz.draw_rect i overlay d)

  -- `if page_regions:`
  abbrev pub applied : ℕ → Marked → fitz.Document
  applied i m =
      if m.regions == 0
      then m.document
      else draw_rects i m.fill_overlays
          (insert_images i m.image_overlays (fitz.apply_redactions i m.document))

  abbrev pub finish_page :
      ℕ → List (Spec floats.F) → fitz.Document × Counter × ℕ → fitz.Document × Counter × ℕ
  finish_page i specs (d, hits, regions) =
      let m =
        mark_areas i specs
          (record { document = d; image_overlays = []; fill_overlays = []; regions = regions }) in
      (applied i m, hits, m.regions)

  abbrev pub redact_page :
      ℕ → List (ℕ × Spec floats.F) → Counter → fitz.Document → fitz.Document × Counter × ℕ
  redact_page i grouped hits d = finish_page i (specs_on i grouped) (mark_terms i hits d)

  abbrev pub add_regions : ℕ → fitz.Document × Counter × ℕ → fitz.Document × Counter × ℕ
  add_regions n (d, hits, regions) = (d, hits, n + regions)

  -- The loop over the n pages from i on
  abbrev pub redact_pages :
      ℕ → ℕ → List (ℕ × Spec floats.F) → Counter → fitz.Document → fitz.Document × Counter × ℕ
  redact_pages zero i grouped hits d = (d, hits, 0)
  redact_pages (suc n) i grouped hits d =
      let (d', hits', regions) = redact_page i grouped hits d in
      add_regions regions (redact_pages n (suc i) grouped hits' d')

  -- `[term for term, hits in term_hits.items() if hits == 0]`
  abbrev pub missing_in : Counter → List Text
  missing_in [] = []
  missing_in ((term, n) ∷ hits) = let rest = missing_in hits in if n == 0 then term ∷ rest else rest

  -- The checks behind the loop: the document that is saved, and the regions
  abbrev pub checked_hits : fitz.Document × Counter × ℕ → Result RedactError (fitz.Document × ℕ)
  checked_hits (d, hits, regions) = do
    found ← raise_if (not (is_empty (missing_in hits))) (missing_terms (missing_in hits))
    any_region ← raise_if (regions == 0) nothing_redacted
    ok (d, regions)

  -- From what `fitz.open` gives; `none` is an exception of it
  abbrev pub redact_terms :
      List Text
      → List (Area floats.F)
      → Option fitz.Document
      → Result RedactError (fitz.Document × ℕ)
  redact_terms terms areas none = err unreadable
  redact_terms terms areas (some d) = do
    open_ ← raise_if (fitz.needs_pass d) password_protected
    pages ← raise_if (fitz.page_count d == 0) no_pages
    grouped ← areas_by_page floats (fitz.page_count d) areas
    checked_hits (redact_pages (fitz.page_count d) 0 grouped (map (λ term. (term, 0)) terms) d)

  unfoldable pub redact_text :
      List Text
      → List (Area floats.F)
      → Option fitz.Document
      → Result RedactError (fitz.Document × ℕ)
  unfolding terms_of areas_by_page
  redact_text texts areas opened = do
    asked ← raise_if (is_empty (terms_of texts) && is_empty areas) nothing_asked
    redact_terms (terms_of texts) areas opened
