-- ===== src/Watermark/Saved.antt =====
-- The graphics state between `q` and `Q` (`_scan_operations` of app/utils/pdf_security.py).
use tools_backend.Base.{
  ℕ, ◌≡◌, refl, ◌∙◌, ◌≢◌, inl, inr, ◌&&◌, not, Option, none, some, List, [], ◌∷◌, ◌++◌, ◌==◌,
  Bool-cases, any, Text, codes, text_eq,
}
use tools_backend.Watermark.Objects.{
  Object, Objects, stream, name, string, bytes, number, array, dictionary, reference, Operator,
  Operation, Store, str_at, xobject_named,
}
use tools_backend.Watermark.Matrices.{Floats}
use tools_backend.Watermark.Sink.{PageBox}
use tools_backend.Watermark.Filter.{Digests}
use tools_backend.Watermark.Scan.{
  ScanState, Inner, hinted, scan_form, drawn, drawn_inline, scan_operation, scan_list,
  is_present_inner,
}

-- Every `q` of the operations has its `Q`.
pub data IsBalanced {F : Type 0} : List (Operation F) → Type 0 where
  done : IsBalanced []
  untouched :
      {op : Operation F} {ops : List (Operation F)}
      → op.operator ≢ Operator.save_state
      → op.operator ≢ Operator.restore_state
      → IsBalanced ops
      → IsBalanced (op ∷ ops)
  saved :
      (save restore : Operation F) (inner ops : List (Operation F))
      → save.operator ≡ Operator.save_state
      → IsBalanced inner
      → restore.operator ≡ Operator.restore_state
      → IsBalanced ops
      → IsBalanced (save ∷ inner ++ restore ∷ ops)

module _ (floats : Floats) (store : Store floats.F) (digests : Digests floats.F)
    (operations_of : ℕ → Option (List (Operation floats.F))) (page : ℕ) (page_box : PageBox floats)
    (inner : Option (Inner floats)) (path : List ℕ) (resources : Option (Object floats.F)) where
  abbrev step : Operation floats.F → ScanState floats.F → ScanState floats.F
  step op s =
      scan_operation floats store digests operations_of page page_box inner path resources
        op.operator op.operands s

  abbrev pub scanned : List (Operation floats.F) → ScanState floats.F → ScanState floats.F
  scanned ops s =
      scan_list floats store digests operations_of page page_box inner path resources ops s

  stack-scan_form :
      (o : Option (Inner floats)) (id : ℕ) (xobject : Object floats.F)
      (operations : Option (List (Operation floats.F))) (s : ScanState floats.F)
      → (scan_form floats store digests operations_of page page_box o path resources id xobject
          operations s).stack
        ≡ s.stack
  stack-scan_form none id xobject operations s = refl
  stack-scan_form (some i) id xobject none s = refl
  stack-scan_form (some i) id xobject (some operations) s = refl

  stack-drawn :
      (o : Option (Object floats.F)) (s : ScanState floats.F)
      → (drawn floats store digests operations_of page page_box inner path resources o s).stack
        ≡ s.stack
  stack-drawn (some (stream id entries)) s =
      let xobject = stream id entries in
      elim (Bool-cases (text_eq (str_at store (codes "/Subtype") xobject) (codes "/Image"))) [
        | inl image ↦ rw image refl
        | inr other ↦
            let nests =
              text_eq (str_at store (codes "/Subtype") xobject) (codes "/Form")
              && is_present_inner floats store digests operations_of page page_box inner
              && not (any (λ k. k == id) path) in
            elim (Bool-cases nests) [
              | inl form ↦
                  rw (other, form)
                    (stack-scan_form inner id xobject (operations_of id)
                      (hinted floats store digests operations_of page page_box id s))
              | inr skipped ↦ rw (other, skipped) refl
            ]
      ]
  stack-drawn (some (dictionary x)) s =
      elim (Bool-cases
        (text_eq (str_at store (codes "/Subtype") (dictionary x)) (codes "/Image"))) [
          | inl image ↦ rw image refl
          | inr other ↦ rw other refl
        ]
  stack-drawn (some (name x)) s = refl
  stack-drawn (some (string x)) s = refl
  stack-drawn (some (bytes x)) s = refl
  stack-drawn (some (number x)) s = refl
  stack-drawn (some (array x)) s = refl
  stack-drawn (some (reference x)) s = refl
  stack-drawn none s = refl

  stack-drawn_inline :
      (digest : Option Text) (s : ScanState floats.F)
      → (drawn_inline floats store digests operations_of page page_box digest s).stack ≡ s.stack
  stack-drawn_inline none s = refl
  stack-drawn_inline (some digest) s = refl

  -- Only `q` and `Q` touch the stack.
  stack-scan_operation :
      (operator : Operator) (operands : Objects floats.F) (s : ScanState floats.F)
      → operator ≢ Operator.save_state
      → operator ≢ Operator.restore_state
      → (scan_operation floats store digests operations_of page page_box inner path resources
          operator operands s).stack
        ≡ s.stack
  stack-scan_operation Operator.save_state operands s not_save not_restore = absurd (not_save refl)
  stack-scan_operation Operator.restore_state operands s not_save not_restore =
      absurd (not_restore refl)
  stack-scan_operation Operator.concat_matrix operands s not_save not_restore = refl
  stack-scan_operation Operator.graphics_state operands s not_save not_restore = refl
  stack-scan_operation Operator.begin_text operands s not_save not_restore = refl
  stack-scan_operation Operator.end_text operands s not_save not_restore =
      elim (Bool-cases s.in_text) [ inl inside ↦ rw inside refl | inr outside ↦ rw outside refl ]
  stack-scan_operation Operator.text_matrix operands s not_save not_restore = refl
  stack-scan_operation Operator.text_font operands s not_save not_restore = refl
  stack-scan_operation Operator.begin_marked operands s not_save not_restore = refl
  stack-scan_operation Operator.begin_marked_properties operands s not_save not_restore = refl
  stack-scan_operation Operator.end_marked operands s not_save not_restore = refl
  stack-scan_operation Operator.show_text operands s not_save not_restore =
      elim (Bool-cases s.in_text) [ inl inside ↦ rw inside refl | inr outside ↦ rw outside refl ]
  stack-scan_operation Operator.draw_object operands s not_save not_restore =
      stack-drawn (xobject_named store operands resources) s
  stack-scan_operation Operator.inline_image operands s not_save not_restore =
      stack-drawn_inline (digests.inline operands) s
  stack-scan_operation Operator.other_operator operands s not_save not_restore = refl

  scanned-append :
      (xs ys : List (Operation floats.F)) (s : ScanState floats.F)
      → scanned (xs ++ ys) s ≡ scanned ys (scanned xs s)
  scanned-append [] ys s = refl
  scanned-append (x ∷ xs) ys s = scanned-append xs ys (step x s)

  -- The state is as it was when it was saved: stack, matrix and alpha.
  abbrev pub IsRestored : ScanState floats.F → ScanState floats.F → Type 0
  IsRestored s s' = (s'.stack ≡ s.stack) × (s'.ctm ≡ s.ctm) × (s'.alpha ≡ s.alpha)

  restore-IsRestored :
      (restore : Operation floats.F) (s s' : ScanState floats.F)
      → restore.operator ≡ Operator.restore_state
      → s'.stack ≡ (s.ctm, s.alpha) ∷ s.stack
      → IsRestored s (step restore s')
  restore-IsRestored restore s s' is_restore saved_on = rw (is_restore, saved_on) (refl, refl, refl)

  stack-save :
      (save : Operation floats.F) (s : ScanState floats.F)
      → save.operator ≡ Operator.save_state
      → (step save s).stack ≡ (s.ctm, s.alpha) ∷ s.stack
  stack-save save s is_save = rw is_save refl

  stack-scanned :
      {ops : List (Operation floats.F)}
      → IsBalanced ops
      → (s : ScanState floats.F) → (scanned ops s).stack ≡ s.stack
  stack-scanned done s = refl
  stack-scanned (untouched {op = op} not_save not_restore rest) s =
      stack-scanned rest (step op s)
      ∙ stack-scan_operation op.operator op.operands s not_save not_restore
  stack-scanned (saved save restore within ops is_save balanced is_restore rest) s =
      let s1 = step save s in
      let s2 = scanned within s1 in
      let on_top = stack-scanned balanced s1 ∙ stack-save save s is_save in
      let (same, _, _) = restore-IsRestored restore s s2 is_restore on_top in
      rw (scanned-append within (restore ∷ ops) s1) (stack-scanned rest (step restore s2) ∙ same)

  -- Whatever operations stand between a `q` and its `Q`, with every `q` among them closed by a `Q`, the
  -- stack, the matrix and the alpha are the same behind the `Q` as they were before the `q`, also if
  -- forms are drawn in between.
  pub scan_list-IsRestored :
      (save restore : Operation floats.F) (ops : List (Operation floats.F)) (s : ScanState floats.F)
      → save.operator ≡ Operator.save_state
      → restore.operator ≡ Operator.restore_state
      → IsBalanced ops
      → IsRestored s (scanned (save ∷ ops ++ restore ∷ []) s)
  scan_list-IsRestored save restore ops s is_save is_restore balanced =
      let s1 = step save s in
      let on_top = stack-scanned balanced s1 ∙ stack-save save s is_save in
      rw (scanned-append ops (restore ∷ []) s1)
        (restore-IsRestored restore s (scanned ops s1) is_restore on_top)
