-- ===== src/Watermark/Scan.antt =====
-- The analysis pass (`_scan_operations` and `_analyse_document` of app/utils/pdf_security.py). The
-- streams of pages and forms, as pypdf parses them, are parameters.
use tools_backend.Base.{
  ℕ, zero, suc, Bool, true, false, ◌&&◌, ◌||◌, not, Option, none, some, List, [], ◌∷◌, ◌++◌, ◌==◌,
  if◌then◌else◌, any, is_empty, Text, codes, text_eq,
}
use tools_backend.Watermark.Objects.{
  Object, Objects, none_left, item, number, dictionary, no_entry, stream, Operator, Operation,
  Store, get, str_at, deref_option, xobject_named, operand_text, normalise,
}
use tools_backend.Watermark.Matrices.{
  Floats, Matrix, identity, matrix, mat_mul, mat_scale, is_diagonal, min_of, max_of, alpha_after_gs,
}
use tools_backend.Watermark.Sink.{Sink, observe_text, observe_image, PageBox}
use tools_backend.Watermark.Filter.{Digests}

-- `_form_hints`: for each form, the least alpha and whether it is drawn diagonally
abbrev pub Hints : Type 0 → Type 0
Hints F = List (ℕ × F × Bool)

pub record Findings (F : Type 0) : Type 0 where
  pub sink : Sink
  pub form_hints : Hints F

pub record ScanState (F : Type 0) : Type 0 where
  pub stack : List (Matrix F × F)
  pub ctm : Matrix F
  pub alpha : F
  pub tm : Matrix F
  pub font_size : F
  pub in_text : Bool
  pub block_text : Text
  pub block_diagonal : Bool
  pub block_alpha : F
  pub block_size : F
  pub findings : Findings F

abbrev pub is_present : {A : Type 0} → Option A → Bool
is_present none = false
is_present (some x) = true

module _ (floats : Floats) where
  -- `_DetectionSink.form`
  abbrev pub note_form : ℕ → floats.F → Bool → Hints floats.F → Hints floats.F
  note_form key alpha diagonal [] = (key, min_of floats (floats.lit 1 1) alpha, diagonal) ∷ []
  note_form key alpha diagonal ((k, least, any_diagonal) ∷ hints) =
      let rest = note_form key alpha diagonal hints in
      if k == key
      then (k, min_of floats least alpha, any_diagonal || diagonal) ∷ hints
      else (k, least, any_diagonal) ∷ rest

  -- The scan of a form: its operations and resources, the matrix and the alpha at which it is drawn,
  -- and the forms it is drawn in
  abbrev pub Inner : Type 0
  Inner =
      List (Operation floats.F)
      → Option (Object floats.F)
      → Matrix floats.F
      → floats.F
      → List ℕ
      → Findings floats.F
      → Findings floats.F

  module _ (store : Store floats.F) (digests : Digests floats.F)
      (operations_of : ℕ → Option (List (Operation floats.F))) (page : ℕ)
      (page_box : PageBox floats) where
    abbrev pub font_size_in : Objects floats.F → floats.F → floats.F
    font_size_in (item font (item (number size) none_left)) old = size
    font_size_in (item font (item other none_left)) old = floats.lit 0 1
    font_size_in operands old = old

    abbrev pub restored :
        List (Matrix floats.F × floats.F) → ScanState floats.F → ScanState floats.F
    restored [] s = s
    restored ((ctm, alpha) ∷ stack) s = record s { stack = stack; ctm = ctm; alpha = alpha }

    abbrev pub shown : Objects floats.F → ScanState floats.F → ScanState floats.F
    shown operands s =
        let render = mat_mul floats s.tm s.ctm in
        record s {
          block_text = s.block_text ++ operand_text store operands;
          block_diagonal = s.block_diagonal || is_diagonal floats render;
          block_alpha = min_of floats s.block_alpha s.alpha;
          block_size =
              max_of floats s.block_size (floats.mul s.font_size (mat_scale floats render));
        }

    abbrev pub observed_block : ScanState floats.F → Text → Findings floats.F
    observed_block s norm = if is_empty norm then s.findings else record (s.findings) {
      sink =
          observe_text floats page norm s.block_diagonal s.block_alpha s.block_size s.findings.sink;
    }

    abbrev pub ended : ScanState floats.F → ScanState floats.F
    ended s = record s { in_text = false; findings = observed_block s (normalise s.block_text) }

    abbrev pub drawn_image : Object floats.F → ScanState floats.F → ScanState floats.F
    drawn_image xobject s =
        let has_smask = is_present (get store (codes "/SMask") xobject) in
        record s {
          findings = record (s.findings) {
            sink =
                observe_image floats page (digests.image xobject) s.ctm s.alpha has_smask page_box
                  s.findings.sink;
          };
        }

    -- `_deref(xobject.get("/Resources")) or resources`
    abbrev pub or_outer :
        Option (Object floats.F) → Option (Object floats.F) → Option (Object floats.F)
    or_outer none resources = resources
    or_outer (some (dictionary no_entry)) resources = resources
    or_outer (some inner) resources = some inner

    abbrev pub form_matrix : Option (Object floats.F) → Matrix floats.F
    form_matrix (some (Object.array xs)) = matrix floats xs
    form_matrix other = identity floats

    abbrev pub scan_form :
        Option Inner
        → List ℕ
        → Option (Object floats.F)
        → ℕ
        → Object floats.F
        → Option (List (Operation floats.F))
        → ScanState floats.F
        → ScanState floats.F
    scan_form none path resources id xobject operations s = s
    scan_form (some inner) path resources id xobject none s = s
    scan_form (some inner) path resources id xobject (some operations) s = record s {
      findings =
          inner operations
            (or_outer (deref_option store (get store (codes "/Resources") xobject)) resources)
            (mat_mul floats (form_matrix (get store (codes "/Matrix") xobject)) s.ctm) s.alpha
            (id ∷ path) s.findings;
    }

    abbrev pub hinted : ℕ → ScanState floats.F → ScanState floats.F
    hinted id s = record s {
      findings = record (s.findings) {
        form_hints = note_form id s.alpha (is_diagonal floats s.ctm) s.findings.form_hints;
      };
    }

    abbrev pub is_present_inner : Option Inner → Bool
    is_present_inner none = false
    is_present_inner (some inner) = true

    -- Forms nest at most six deep, and not in themselves. A form that is a plain dictionary has no
    -- stream to scan or to rewrite; its hint is left out.
    abbrev pub drawn :
        Option Inner
        → List ℕ
        → Option (Object floats.F)
        → Option (Object floats.F)
        → ScanState floats.F
        → ScanState floats.F
    drawn inner path resources (some (stream id entries)) s =
        let xobject = stream id entries in
        if text_eq (str_at store (codes "/Subtype") xobject) (codes "/Image")
        then drawn_image xobject s
        else if text_eq (str_at store (codes "/Subtype") xobject) (codes "/Form")
            && is_present_inner inner
            && not (any (λ k. k == id) path)
        then scan_form inner path resources id xobject (operations_of id) (hinted id s)
        else s
    drawn inner path resources (some (dictionary entries)) s =
        if text_eq (str_at store (codes "/Subtype") (dictionary entries)) (codes "/Image")
        then drawn_image (dictionary entries) s
        else s
    drawn inner path resources other s = s

    abbrev pub drawn_inline : Option Text → ScanState floats.F → ScanState floats.F
    drawn_inline none s = s
    drawn_inline (some digest) s = record s {
      findings = record (s.findings) {
        sink = observe_image floats page digest s.ctm s.alpha false page_box s.findings.sink;
      };
    }

    abbrev pub scan_operation :
        Option Inner
        → List ℕ
        → Option (Object floats.F)
        → Operator
        → Objects floats.F
        → ScanState floats.F
        → ScanState floats.F
    scan_operation inner path resources Operator.save_state operands s = record s {
      stack = (s.ctm, s.alpha) ∷ s.stack;
    }
    scan_operation inner path resources Operator.restore_state operands s = restored s.stack s
    scan_operation inner path resources Operator.concat_matrix operands s = record s {
      ctm = mat_mul floats (matrix floats operands) s.ctm;
    }
    scan_operation inner path resources Operator.graphics_state operands s = record s {
      alpha = alpha_after_gs floats store operands resources s.alpha;
    }
    scan_operation inner path resources Operator.begin_text operands s = record s {
      in_text = true;
      tm = identity floats;
      block_text = [];
      block_diagonal = false;
      block_alpha = s.alpha;
      block_size = floats.lit 0 1;
    }
    scan_operation inner path resources Operator.text_matrix operands s = record s {
      tm = matrix floats operands;
    }
    scan_operation inner path resources Operator.text_font operands s = record s {
      font_size = font_size_in operands s.font_size;
    }
    scan_operation inner path resources Operator.show_text operands s =
        if s.in_text then shown operands s else s
    scan_operation inner path resources Operator.end_text operands s =
        if s.in_text then ended s else s
    scan_operation inner path resources Operator.draw_object operands s =
        drawn inner path resources (xobject_named store operands resources) s
    scan_operation inner path resources Operator.inline_image operands s =
        drawn_inline (digests.inline operands) s
    scan_operation inner path resources _ operands s = s

    abbrev pub scan_list :
        Option Inner
        → List ℕ
        → Option (Object floats.F)
        → List (Operation floats.F)
        → ScanState floats.F
        → ScanState floats.F
    scan_list inner path resources [] s = s
    scan_list inner path resources (op ∷ ops) s =
        scan_list inner path resources ops
          (scan_operation inner path resources op.operator op.operands s)

    abbrev pub scan_start : Matrix floats.F → floats.F → Findings floats.F → ScanState floats.F
    scan_start ctm alpha findings = record {
      stack = [];
      ctm = ctm;
      alpha = alpha;
      tm = identity floats;
      font_size = floats.lit 0 1;
      in_text = false;
      block_text = [];
      block_diagonal = false;
      block_alpha = floats.lit 1 1;
      block_size = floats.lit 0 1;
      findings = findings;
    }

    -- `_scan_operations`, with the depth that is left
    unfoldable pub scan_operations : ℕ → Inner
    unfolding observe_text observe_image
    scan_operations zero ops resources ctm alpha path findings =
        (scan_list none path resources ops (scan_start ctm alpha findings)).findings
    scan_operations (suc depth) ops resources ctm alpha path findings =
        (scan_list (some (scan_operations depth)) path resources ops
          (scan_start ctm alpha findings)).findings

  -- A page: its operations, unless they cannot be read, its resources and its box
  pub record Page : Type 0 where
    pub operations : Option (List (Operation floats.F))
    pub resources : Option (Object floats.F)
    pub mediabox : PageBox floats

  module _ (store : Store floats.F) (digests : Digests floats.F)
      (operations_of : ℕ → Option (List (Operation floats.F))) where
    abbrev pub scan_page :
        ℕ → Page → Option (List (Operation floats.F)) → Findings floats.F → Findings floats.F
    scan_page index page none findings = findings
    scan_page index page (some operations) findings =
        scan_operations store digests operations_of index page.mediabox 6 operations page.resources
          (identity floats) (floats.lit 1 1) [] findings

    -- `_analyse_document`, but for the decision
    unfoldable pub analyse_pages : ℕ → List Page → Findings floats.F → Findings floats.F
    unfolding scan_operations normalise operand_text mat_mul matrix mat_scale is_diagonal
        xobject_named alpha_after_gs
    analyse_pages index [] findings = findings
    analyse_pages index (page ∷ pages) findings =
        analyse_pages (suc index) pages (scan_page index page page.operations findings)
