-- ===== src/Watermark/Walked.antt =====
-- What each observation keeps, the analysis pass keeps (`_scan_operations` and `_analyse_document` of
-- app/utils/pdf_security.py).
use tools_backend.Base.{
  ℕ, zero, suc, ◌+◌, ◌≤◌, ◌<◌, inl, inr, Bool, false, ◌&&◌, not, Option, none, some, List, [], ◌∷◌,
  arith, ◌==◌, Bool-cases, length, any, is_empty, Text, codes, text_eq,
}
use tools_backend.Watermark.Objects.{
  Object, Objects, stream, name, string, bytes, number, array, dictionary, reference, Operator,
  Operation, Store, get, str_at, xobject_named, normalise,
}
use tools_backend.Watermark.Matrices.{Floats, Matrix, identity}
use tools_backend.Watermark.Sink.{Sink, observe_text, observe_image, PageBox}
use tools_backend.Watermark.Filter.{Digests}
use tools_backend.Watermark.Scan.{
  Findings, ScanState, Inner, Page, is_present, restored, ended, scan_form, hinted, drawn,
  drawn_image, drawn_inline, scan_operation, scan_list, scan_start, scan_operations,
  is_present_inner, scan_page, analyse_pages,
}

module _ {κ} (floats : Floats) (store : Store floats.F) (digests : Digests floats.F)
    (operations_of : ℕ → Option (List (Operation floats.F))) (Inv : Sink → Type κ) where
  -- An observation of a text, or of an image, on the page keeps the property.
  abbrev pub KeptByText : ℕ → Type κ
  KeptByText page =
      (norm : Text) (diagonal : Bool) (alpha size : floats.F) (s : Sink)
      → Inv s
      → Inv (observe_text floats page norm diagonal alpha size s)

  abbrev pub KeptByImage : ℕ → Type κ
  KeptByImage page =
      (digest : Text) (ctm : Matrix floats.F) (alpha : floats.F) (has_smask : Bool)
      (page_box : PageBox floats) (s : Sink)
      → Inv s
      → Inv (observe_image floats page digest ctm alpha has_smask page_box s)

  abbrev Holds : ScanState floats.F → Type κ
  Holds s = Inv s.findings.sink

  abbrev KeptByInner : Option (Inner floats) → Type κ
  KeptByInner none = Unit
  KeptByInner (some inner) =
      (ops : List (Operation floats.F)) (resources : Option (Object floats.F))
      (ctm : Matrix floats.F) (alpha : floats.F) (path : List ℕ) (f : Findings floats.F)
      → Inv f.sink
      → Inv (inner ops resources ctm alpha path f).sink

  module _ (page : ℕ) (page_box : PageBox floats) (on_text : KeptByText page)
      (on_image : KeptByImage page) where
    restored-Holds :
        (stack : List (Matrix floats.F × floats.F)) (s : ScanState floats.F)
        → Holds s
        → Holds (restored floats store digests operations_of page page_box stack s)
    restored-Holds [] s h = h
    restored-Holds (saved ∷ stack) s h = h

    ended-Holds :
        (s : ScanState floats.F)
        → Holds s
        → Holds (ended floats store digests operations_of page page_box s)
    ended-Holds s h = elim (Bool-cases (is_empty (normalise s.block_text))) [
      | inl blank ↦ rw blank h
      | inr some_text ↦ rw some_text (
          on_text (normalise s.block_text) s.block_diagonal s.block_alpha s.block_size
            s.findings.sink h)
    ]

    scan_form-Holds :
        (inner : Option (Inner floats)) (path : List ℕ) (resources : Option (Object floats.F))
        (id : ℕ) (xobject : Object floats.F) (operations : Option (List (Operation floats.F)))
        (s : ScanState floats.F)
        → KeptByInner inner
        → Holds s
        → Holds (
            scan_form floats store digests operations_of page page_box inner path resources id
              xobject operations s)
    scan_form-Holds none path resources id xobject operations s k h = h
    scan_form-Holds (some inner) path resources id xobject none s k h = h
    scan_form-Holds (some inner) path resources id xobject (some operations) s k h =
        k operations _ _ s.alpha (id ∷ path) s.findings h

    drawn_inline-Holds :
        (digest : Option Text) (s : ScanState floats.F)
        → Holds s
        → Holds (drawn_inline floats store digests operations_of page page_box digest s)
    drawn_inline-Holds none s h = h
    drawn_inline-Holds (some digest) s h =
        on_image digest s.ctm s.alpha false page_box s.findings.sink h

    drawn_image-Holds :
        (xobject : Object floats.F) (s : ScanState floats.F)
        → Holds s
        → Holds (drawn_image floats store digests operations_of page page_box xobject s)
    drawn_image-Holds xobject s h =
        on_image (digests.image xobject) s.ctm s.alpha
          (is_present (get store (codes "/SMask") xobject)) page_box s.findings.sink h

    drawn-Holds :
        (inner : Option (Inner floats)) (path : List ℕ) (resources o : Option (Object floats.F))
        (s : ScanState floats.F)
        → KeptByInner inner
        → Holds s
        → Holds (drawn floats store digests operations_of page page_box inner path resources o s)
    drawn-Holds inner path resources (some (stream id entries)) s k h =
        let xobject = stream id entries in
        elim (Bool-cases (text_eq (str_at store (codes "/Subtype") xobject) (codes "/Image"))) [
          | inl image ↦ rw image (drawn_image-Holds xobject s h)
          | inr other ↦
              let nests =
                text_eq (str_at store (codes "/Subtype") xobject) (codes "/Form")
                && is_present_inner floats store digests operations_of page page_box inner
                && not (any (λ k. k == id) path) in
              elim (Bool-cases nests) [
                | inl form ↦
                    rw (other, form)
                      (scan_form-Holds inner path resources id xobject (operations_of id)
                        (hinted floats store digests operations_of page page_box id s) k h)
                | inr skipped ↦ rw (other, skipped) h
              ]
        ]
    drawn-Holds inner path resources (some (name x)) s k h = h
    drawn-Holds inner path resources (some (string x)) s k h = h
    drawn-Holds inner path resources (some (bytes x)) s k h = h
    drawn-Holds inner path resources (some (number x)) s k h = h
    drawn-Holds inner path resources (some (array x)) s k h = h
    drawn-Holds inner path resources (some (dictionary x)) s k h =
        elim (Bool-cases
          (text_eq (str_at store (codes "/Subtype") (dictionary x)) (codes "/Image"))) [
            | inl image ↦ rw image (drawn_image-Holds (dictionary x) s h)
            | inr other ↦ rw other h
          ]
    drawn-Holds inner path resources (some (reference x)) s k h = h
    drawn-Holds inner path resources none s k h = h

    scan_operation-Holds :
        (inner : Option (Inner floats)) (path : List ℕ) (resources : Option (Object floats.F))
        (operator : Operator) (operands : Objects floats.F) (s : ScanState floats.F)
        → KeptByInner inner
        → Holds s
        → Holds (
            scan_operation floats store digests operations_of page page_box inner path resources
              operator operands s)
    scan_operation-Holds inner path resources Operator.save_state operands s k h = h
    scan_operation-Holds inner path resources Operator.restore_state operands s k h =
        restored-Holds s.stack s h
    scan_operation-Holds inner path resources Operator.concat_matrix operands s k h = h
    scan_operation-Holds inner path resources Operator.graphics_state operands s k h = h
    scan_operation-Holds inner path resources Operator.begin_text operands s k h = h
    scan_operation-Holds inner path resources Operator.end_text operands s k h =
        elim (Bool-cases s.in_text) [
          | inl inside ↦ rw inside (ended-Holds s h)
          | inr outside ↦ rw outside h
        ]
    scan_operation-Holds inner path resources Operator.text_matrix operands s k h = h
    scan_operation-Holds inner path resources Operator.text_font operands s k h = h
    scan_operation-Holds inner path resources Operator.begin_marked operands s k h = h
    scan_operation-Holds inner path resources Operator.begin_marked_properties operands s k h = h
    scan_operation-Holds inner path resources Operator.end_marked operands s k h = h
    scan_operation-Holds inner path resources Operator.show_text operands s k h =
        elim (Bool-cases s.in_text) [ inl inside ↦ rw inside h | inr outside ↦ rw outside h ]
    scan_operation-Holds inner path resources Operator.draw_object operands s k h =
        drawn-Holds inner path resources (xobject_named store operands resources) s k h
    scan_operation-Holds inner path resources Operator.inline_image operands s k h =
        drawn_inline-Holds (digests.inline operands) s h
    scan_operation-Holds inner path resources Operator.other_operator operands s k h = h

    scan_list-Holds :
        (inner : Option (Inner floats)) (path : List ℕ) (resources : Option (Object floats.F))
        (ops : List (Operation floats.F)) (s : ScanState floats.F)
        → KeptByInner inner
        → Holds s
        → Holds
            (scan_list floats store digests operations_of page page_box inner path resources ops s)
    scan_list-Holds inner path resources [] s k h = h
    scan_list-Holds inner path resources (op ∷ ops) s k h =
        scan_list-Holds inner path resources ops _ k
          (scan_operation-Holds inner path resources op.operator op.operands s k h)

    scan_operations-Holds :
        (depth : ℕ)
        → KeptByInner
            (some (scan_operations floats store digests operations_of page page_box depth))
    unfolding scan_operations
    scan_operations-Holds zero ops resources ctm alpha path f h =
        scan_list-Holds none path resources ops
          (scan_start floats store digests operations_of page page_box ctm alpha f) tt h
    scan_operations-Holds (suc depth) ops resources ctm alpha path f h =
        scan_list-Holds
          (some (scan_operations floats store digests operations_of page page_box depth)) path
          resources ops (scan_start floats store digests operations_of page page_box ctm alpha f)
          (scan_operations-Holds depth) h

  module _ (total : ℕ) (on_text : (page : ℕ) → page < total → KeptByText page)
      (on_image : (page : ℕ) → page < total → KeptByImage page) where
    scan_page-Holds :
        (index : ℕ) (page : Page floats) (operations : Option (List (Operation floats.F)))
        (f : Findings floats.F)
        → index < total
        → Inv f.sink
        → Inv (scan_page floats store digests operations_of index page operations f).sink
    scan_page-Holds index page none f below h = h
    scan_page-Holds index page (some operations) f below h =
        scan_operations-Holds index page.mediabox (on_text index below) (on_image index below) 6
          operations page.resources (identity floats) (floats.lit 1 1) [] f h

    pub analyse_pages-Holds :
        (index : ℕ) (pages : List (Page floats)) (f : Findings floats.F)
        → index + length pages ≤ total
        → Inv f.sink
        → Inv (analyse_pages floats store digests operations_of index pages f).sink
    unfolding analyse_pages
    analyse_pages-Holds index [] f below h = h
    analyse_pages-Holds index (page ∷ pages) f below h =
        analyse_pages-Holds (suc index) pages
          (scan_page floats store digests operations_of index page page.operations f) (omega arith)
          (scan_page-Holds index page page.operations f (omega arith) h)
