-- ===== src/Redact/Laws.antt =====
-- What the redaction relies on in PyMuPDF, and what follows for the marks on one page
-- (app/utils/pdf_document.py).
use tools_backend.Base.{
  ℕ, ◌≤◌, ◌≡◌, refl, ◌∙◌, ◌≢◌, inl, inr, ◌||◌, Option, none, some, List, [], ◌∷◌, arith, Bool-cases,
  All, Text, codes, text_eq,
}
use tools_backend.Redact.Areas.{Floats, Fill, Rgb, Spec}
use tools_backend.Redact.Steps.{
  Fitz, black, white, Marked, mark_all, mark_area, mark_areas, insert_images, draw_rects,
}

-- Marking, covering and drawing leave the text alone; applying the marks of a page removes the text
-- under each of them, and touches no other page.
pub record Laws {floats : Floats} (fitz : Fitz floats) : Type 1 where
  pub IsMarked : fitz.Document → ℕ → fitz.Rect → Type 0
  pub search_for-add :
      (i j : ℕ) (rect : fitz.Rect) (fill : Fill) (d : fitz.Document) (t : Text)
      → fitz.search_for (fitz.add_redact_annot i rect fill d) j t ≡ fitz.search_for d j t
  pub add-IsMarked :
      (i : ℕ) (rect : fitz.Rect) (fill : Fill) (d : fitz.Document)
      → IsMarked (fitz.add_redact_annot i rect fill d) i rect
  pub add_keeps :
      (i j : ℕ) (rect rect' : fitz.Rect) (fill : Fill) (d : fitz.Document)
      → IsMarked d j rect'
      → IsMarked (fitz.add_redact_annot i rect fill d) j rect'
  pub search_for-apply_ne :
      (i j : ℕ) (d : fitz.Document) (t : Text)
      → i ≢ j
      → fitz.search_for (fitz.apply_redactions i d) j t ≡ fitz.search_for d j t
  pub search_for-apply :
      (i : ℕ) (d : fitz.Document) (t : Text)
      → All (IsMarked d i) (fitz.search_for d i t)
      → fitz.search_for (fitz.apply_redactions i d) i t ≡ []
  pub search_for-insert :
      (i j : ℕ) (overlay : fitz.Rect × fitz.Png) (d : fitz.Document) (t : Text)
      → fitz.search_for (fitz.insert_image i overlay d) j t ≡ fitz.search_for d j t
  pub search_for-draw :
      (i j : ℕ) (overlay : fitz.Rect × Rgb × floats.F) (d : fitz.Document) (t : Text)
      → fitz.search_for (fitz.draw_rect i overlay d) j t ≡ fitz.search_for d j t

module _ (floats : Floats) (fitz : Fitz floats) (laws : Laws fitz) where
  -- The second document has the text of the first, and its marks.
  pub record Extends (d d' : fitz.Document) : Type 0 where
    pub search_lem : (j : ℕ) (t : Text) → fitz.search_for d' j t ≡ fitz.search_for d j t
    pub marks_lem : (j : ℕ) (r : fitz.Rect) → laws.IsMarked d j r → laws.IsMarked d' j r

  pub Extends-refl : (d : fitz.Document) → Extends d d
  Extends-refl d = record { search_lem = λ j t. refl; marks_lem = λ j r h. h }

  pub Extends-trans : {d1 d2 d3 : fitz.Document} → Extends d1 d2 → Extends d2 d3 → Extends d1 d3
  Extends-trans e e' = record {
    search_lem = λ j t. e'.search_lem j t ∙ e.search_lem j t;
    marks_lem = λ j r h. e'.marks_lem j r (e.marks_lem j r h);
  }

  pub add-Extends :
      (i : ℕ) (rect : fitz.Rect) (fill : Fill) (d : fitz.Document)
      → Extends d (fitz.add_redact_annot i rect fill d)
  add-Extends i rect fill d = record {
    search_lem = λ j t. laws.search_for-add i j rect fill d t;
    marks_lem = λ j r h. laws.add_keeps i j rect r fill d h;
  }

  pub mark_all-Extends :
      (i : ℕ) (fill : Fill) (rects : List fitz.Rect) (d : fitz.Document)
      → Extends d (mark_all floats fitz i fill rects d)
  mark_all-Extends i fill [] d = Extends-refl d
  mark_all-Extends i fill (rect ∷ rects) d =
      Extends-trans (add-Extends i rect fill d)
        (mark_all-Extends i fill rects (fitz.add_redact_annot i rect fill d))

  pub mark_all-IsMarked :
      (i : ℕ) (fill : Fill) (rects : List fitz.Rect) (d : fitz.Document)
      → All (laws.IsMarked (mark_all floats fitz i fill rects d) i) rects
  mark_all-IsMarked i fill [] d = tt
  mark_all-IsMarked i fill (rect ∷ rects) d = (
    (mark_all-Extends i fill rects (fitz.add_redact_annot i rect fill d)).marks_lem i rect
        (laws.add-IsMarked i rect fill d),
    mark_all-IsMarked i fill rects (fitz.add_redact_annot i rect fill d),
  )

  pub mark_area-Extends :
      (i : ℕ) (spec : Spec floats.F) (m : Marked floats fitz) (o : Option fitz.Rect)
      → Extends m.document (mark_area floats fitz i spec m o).document
        × (m.regions ≤ (mark_area floats fitz i spec m o).regions)
  mark_area-Extends i spec m none = (Extends-refl m.document, omega arith)
  mark_area-Extends i spec m (some rect) =
      let add = λ (fill : Fill). add-Extends i rect fill m.document in
      elim (Bool-cases (text_eq spec.mode (codes "blur") || text_eq spec.mode (codes "pixelate"))) [
        | inl obscured ↦ rw obscured (add white, omega arith)
        | inr plain ↦ elim (Bool-cases (text_eq spec.mode (codes "white"))) [
          | inl bright ↦ rw (plain, bright) (add white, omega arith)
          | inr dark ↦ elim (Bool-cases (text_eq spec.mode (codes "color"))) [
            | inl colored ↦ elim (Bool-cases (floats.is_opaque spec.opacity)) [
              | inl opaque ↦
                  rw (plain, dark, colored, opaque) (add (Fill.solid spec.color), omega arith)
              | inr clear ↦ rw (plain, dark, colored, clear) (add Fill.unfilled, omega arith)
            ]
            | inr other ↦ rw (plain, dark, other) (add black, omega arith)
          ]
        ]
      ]

  pub mark_areas-Extends :
      (i : ℕ) (specs : List (Spec floats.F)) (m : Marked floats fitz)
      → Extends m.document (mark_areas floats fitz i specs m).document
        × (m.regions ≤ (mark_areas floats fitz i specs m).regions)
  mark_areas-Extends i [] m = (Extends-refl m.document, omega arith)
  mark_areas-Extends i (spec ∷ specs) m =
      let o = fitz.clipped m.document i spec.rect in
      let (e, le) = mark_area-Extends i spec m o in
      let (e', le') = mark_areas-Extends i specs (mark_area floats fitz i spec m o) in
      (Extends-trans e e', omega arith)

  pub search_for-insert_images :
      (i j : ℕ) (overlays : List (fitz.Rect × fitz.Png)) (d : fitz.Document) (t : Text)
      → fitz.search_for (insert_images floats fitz i overlays d) j t ≡ fitz.search_for d j t
  search_for-insert_images i j [] d t = refl
  search_for-insert_images i j (overlay ∷ overlays) d t =
      search_for-insert_images i j overlays (fitz.insert_image i overlay d) t
      ∙ laws.search_for-insert i j overlay d t

  pub search_for-draw_rects :
      (i j : ℕ) (overlays : List (fitz.Rect × Rgb × floats.F)) (d : fitz.Document) (t : Text)
      → fitz.search_for (draw_rects floats fitz i overlays d) j t ≡ fitz.search_for d j t
  search_for-draw_rects i j [] d t = refl
  search_for-draw_rects i j (overlay ∷ overlays) d t =
      search_for-draw_rects i j overlays (fitz.draw_rect i overlay d) t
      ∙ laws.search_for-draw i j overlay d t
