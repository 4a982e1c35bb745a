-- ===== src/Watermark/Filter.antt =====
-- The rewrite of a content stream (`_filter_operations` of app/utils/pdf_security.py). The digests of
-- images are parameters.
use tools_backend.Base.{
  ℕ, zero, suc, ◌+◌, ◌-◌, Bool, false, ◌&&◌, ◌||◌, not, Option, none, some, List, [], ◌∷◌, ◌++◌,
  if◌then◌else◌, is_empty, Text, codes, text_eq, contains, member,
}
use tools_backend.Watermark.Objects.{
  Object, Objects, none_left, item, Operator, Operation, Store, get, str_at, str_of,
  resolve_properties, is_watermark_oc, is_watermark_artifact, xobject_named, operand_text,
  normalise,
}
use tools_backend.Watermark.Matrices.{
  Floats, Matrix, identity, matrix, mat_mul, is_diagonal, is_transparent, min_of, alpha_after_gs,
}

-- `_image_digest` and `_inline_image_digest`
pub record Digests (F : Type 0) : Type 0 where
  pub image : Object F → Text
  pub inline : Objects F → Option Text

-- `_RewritePlan`, with what the detection found
pub record Plan (F : Type 0) : Type 0 where
  pub user_needle : Option Text
  pub text_needles : List Text
  pub image_digests : List Text
  pub strip_layers : Bool
  pub hint_alpha : F
  pub hint_diagonal : Bool

-- A text block that is not closed yet
pub record Block (F : Type 0) : Type 0 where
  pub operations : List (Operation F)
  pub text : Text
  pub diagonal : Bool
  pub alpha : F

pub record FilterState (F : Type 0) : Type 0 where
  pub skip_depth : ℕ
  pub block : Option (Block F)
  pub stack : List (Matrix F × F)
  pub ctm : Matrix F
  pub alpha : F
  pub tm : Matrix F

-- What a step keeps, and how many objects and matches of the user's text it removes
pub record Step (F : Type 0) : Type 0 where
  pub state : FilterState F
  pub kept : List (Operation F)
  pub removed : ℕ
  pub user_hits : ℕ

abbrev pub is_user_match : Option Text → Text → Bool
is_user_match none norm = false
is_user_match (some needle) norm = if is_empty needle then false else contains needle norm

module _ (floats : Floats) (store : Store floats.F) (digests : Digests floats.F)
    (resources : Option (Object floats.F)) (plan : Plan floats.F) where
  abbrev pub popped :
      List (Matrix floats.F × floats.F) → FilterState floats.F → FilterState floats.F
  popped [] s = s
  popped ((ctm, alpha) ∷ stack) s = record s { stack = stack; ctm = ctm; alpha = alpha }

  -- The graphics state behind an operation
  abbrev pub tracked_by : Operator → Objects floats.F → FilterState floats.F → FilterState floats.F
  tracked_by Operator.save_state operands s = record s { stack = (s.ctm, s.alpha) ∷ s.stack }
  tracked_by Operator.restore_state operands s = popped s.stack s
  tracked_by Operator.concat_matrix operands s = record s {
    ctm = mat_mul floats (matrix floats operands) s.ctm;
  }
  tracked_by Operator.graphics_state operands s = record s {
    alpha = alpha_after_gs floats store operands resources s.alpha;
  }
  tracked_by Operator.text_matrix operands s = record s { tm = matrix floats operands }
  tracked_by _ operands s = s

  abbrev pub tracked : Operation floats.F → FilterState floats.F → FilterState floats.F
  tracked op s = tracked_by op.operator op.operands s

  abbrev pub is_marked_content : Objects floats.F → Bool
  is_marked_content (item tag (item operand none_left)) =
      let properties = resolve_properties store operand resources in
      (text_eq (str_of store tag) (codes "/Artifact") && is_watermark_artifact store properties)
      || (plan.strip_layers
          && text_eq (str_of store tag) (codes "/OC")
          && is_watermark_oc store properties)
  is_marked_content operands = false

  abbrev pub is_doomed_image : Object floats.F → Bool
  is_doomed_image xobject =
      not (is_empty plan.image_digests)
      && text_eq (str_at store (codes "/Subtype") xobject) (codes "/Image")
      && member (digests.image xobject) plan.image_digests

  abbrev pub is_doomed_xobject : Option (Object floats.F) → Bool
  is_doomed_xobject none = false
  is_doomed_xobject (some xobject) =
      (plan.strip_layers && is_watermark_oc store (get store (codes "/OC") xobject))
      || is_doomed_image xobject

  abbrev pub is_doomed_inline : Option Text → Bool
  is_doomed_inline none = false
  is_doomed_inline (some digest) =
      not (is_empty plan.image_digests) && member digest plan.image_digests

  abbrev pub kept_in : Operation floats.F → FilterState floats.F → Step floats.F
  kept_in op s = record { state = s; kept = op ∷ []; removed = 0; user_hits = 0 }

  abbrev pub dropped_in : FilterState floats.F → Step floats.F
  dropped_in s = record { state = s; kept = []; removed = 1; user_hits = 0 }

  abbrev pub silent : FilterState floats.F → Step floats.F
  silent s = record { state = s; kept = []; removed = 0; user_hits = 0 }

  abbrev pub opened : Operation floats.F → FilterState floats.F → FilterState floats.F
  opened op s = record s {
    block = some (record { operations = op ∷ []; text = []; diagonal = false; alpha = s.alpha });
    tm = identity floats;
  }

  -- Outside of text blocks
  abbrev pub outside_by : Operator → Operation floats.F → FilterState floats.F → Step floats.F
  outside_by Operator.begin_marked_properties op s =
      if is_marked_content op.operands
      then dropped_in (record s { skip_depth = 1 })
      else kept_in op s
  outside_by Operator.begin_text op s = silent (opened op s)
  outside_by Operator.draw_object op s =
      if is_doomed_xobject (xobject_named store op.operands resources)
      then dropped_in s
      else kept_in op s
  outside_by Operator.inline_image op s =
      if is_doomed_inline (digests.inline op.operands) then dropped_in s else kept_in op s
  outside_by _ op s = kept_in op s

  -- The block with the operation, whose text it may show
  abbrev pub with_operation :
      Operator → Operation floats.F → FilterState floats.F → Block floats.F → Block floats.F
  with_operation Operator.show_text op s b = record {
    operations = b.operations ++ op ∷ [];
    text = b.text ++ operand_text store op.operands;
    diagonal = b.diagonal || is_diagonal floats (mat_mul floats s.tm s.ctm);
    alpha = min_of floats b.alpha s.alpha;
  }
  with_operation _ op s b = record b { operations = b.operations ++ op ∷ [] }

  abbrev pub has_traits : Block floats.F → Bool
  has_traits b =
      b.diagonal
      || plan.hint_diagonal
      || is_transparent floats b.alpha
      || is_transparent floats plan.hint_alpha

  abbrev pub closed : Block floats.F → FilterState floats.F → Step floats.F
  closed b s =
      let norm = normalise b.text in
      if is_user_match plan.user_needle norm
      then record { state = s; kept = []; removed = 1; user_hits = 1 }
      else if member norm plan.text_needles && has_traits b
      then dropped_in s
      else record { state = s; kept = b.operations; removed = 0; user_hits = 0 }

  abbrev pub inside_by : Operator → Block floats.F → FilterState floats.F → Step floats.F
  inside_by Operator.end_text b s = closed b (record s { block = none })
  inside_by _ b s = silent (record s { block = some b })

  abbrev pub in_block :
      Option (Block floats.F) → Operation floats.F → FilterState floats.F → Step floats.F
  in_block none op s = outside_by op.operator op s
  in_block (some b) op s = inside_by op.operator (with_operation op.operator op s b) s

  abbrev pub depth_by : Operator → ℕ → ℕ
  depth_by Operator.begin_marked_properties depth = suc depth
  depth_by Operator.begin_marked depth = suc depth
  depth_by Operator.end_marked depth = depth - 1
  depth_by _ depth = depth

  abbrev pub step_by : ℕ → Operation floats.F → FilterState floats.F → Step floats.F
  step_by zero op s = in_block s.block op (tracked op s)
  step_by (suc depth) op s = silent (record s { skip_depth = depth_by op.operator (suc depth) })

  unfoldable pub filter_step : Operation floats.F → FilterState floats.F → Step floats.F
  filter_step op s = step_by s.skip_depth op s

  -- An unbalanced block is kept untouched.
  abbrev pub pending : Option (Block floats.F) → List (Operation floats.F)
  pending none = []
  pending (some b) = b.operations

  -- The operations kept, and the counts
  abbrev pub filter_from :
      FilterState floats.F → List (Operation floats.F) → List (Operation floats.F) × ℕ × ℕ
  filter_from s [] = (pending s.block, 0, 0)
  filter_from s (op ∷ ops) =
      let step = filter_step op s in
      let (kept, removed, user_hits) = filter_from step.state ops in
      (step.kept ++ kept, step.removed + removed, step.user_hits + user_hits)

  abbrev pub initial : FilterState floats.F
  initial = record {
    skip_depth = 0;
    block = none;
    stack = [];
    ctm = identity floats;
    alpha = plan.hint_alpha;
    tm = identity floats;
  }

  unfoldable pub filter_operations : List (Operation floats.F) → List (Operation floats.F) × ℕ × ℕ
  unfolding filter_step member normalise operand_text is_diagonal mat_mul matrix contains
      resolve_properties is_watermark_oc is_watermark_artifact xobject_named alpha_after_gs
  filter_operations operations = filter_from initial operations
