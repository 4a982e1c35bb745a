-- ===== src/Watermark/Kept.antt =====
-- What the rewrite of a content stream keeps (`_filter_operations` of app/utils/pdf_security.py).
use mathlib.Core.List.{Sublistᴰ}
use mathlib.Core.List.Sublistᴰ
use mathlib.Core.Path.{subst}
use tools_backend.Base.{
  ℕ, zero, suc, ◌≤◌, ◌≡◌, refl, sym, ap, ◌∙◌, inl, inr, Bool, true, false, ◌&&◌, Option, none, some,
  List, [], ◌∷◌, ◌++◌, append_assoc, append-nil, arith, if◌then◌else◌, Bool-cases, member,
}
use tools_backend.Watermark.Objects.{Object, Objects, Operator, Operation, Store, normalise}
use tools_backend.Watermark.Matrices.{Floats, Matrix}
use tools_backend.Watermark.Filter.{
  Digests, Plan, Block, FilterState, Step, is_user_match, popped, tracked_by, tracked,
  is_marked_content, kept_in, dropped_in, outside_by, with_operation, has_traits, closed, inside_by,
  in_block, step_by, filter_step, pending, filter_from, initial, filter_operations,
}

module _ (floats : Floats) (store : Store floats.F) (digests : Digests floats.F)
    (resources : Option (Object floats.F)) (plan : Plan floats.F) where
  abbrev Op : Type 0
  Op = Operation floats.F

  abbrev held : Option (Block floats.F) → List Op
  held b = pending floats store digests resources plan b

  -- What a step leaves of the operations that were held back and of its own
  record Keeps (before : List Op) (skip : ℕ) (step : Step floats.F) : Type 0 where
    pub drops : Sublistᴰ (step.kept ++ held step.state.block) before
    pub hits : step.user_hits ≤ step.removed
    pub whole :
        step.removed ≡ 0
        → skip ≡ 0
        → (step.state.skip_depth ≡ 0) × (step.kept ++ held step.state.block ≡ before)

  tracked-block :
      (o : Operator) (operands : Objects floats.F) (s : FilterState floats.F)
      → ((tracked_by floats store digests resources plan o operands s).block ≡ s.block)
        × ((tracked_by floats store digests resources plan o operands s).skip_depth ≡ s.skip_depth)
  tracked-block Operator.restore_state operands s = popped-block s.stack s
    where
      popped-block :
          (stack : List (Matrix floats.F × floats.F)) (s : FilterState floats.F)
          → ((popped floats store digests resources plan stack s).block ≡ s.block)
            × ((popped floats store digests resources plan stack s).skip_depth ≡ s.skip_depth)
      popped-block [] s = (refl, refl)
      popped-block ((ctm, alpha) ∷ stack) s = (refl, refl)
  tracked-block Operator.save_state operands s = (refl, refl)
  tracked-block _ operands s = (refl, refl)

  with_operation-operations :
      (o : Operator) (op : Op) (s : FilterState floats.F) (b : Block floats.F)
      → (with_operation floats store digests resources plan o op s b).operations
        ≡ b.operations ++ op ∷ []
  with_operation-operations Operator.show_text op s b = refl
  with_operation-operations _ op s b = refl

  kept_in-Keeps :
      (op : Op) (s : FilterState floats.F)
      → s.block ≡ none
      → s.skip_depth ≡ 0
      → Keeps (op ∷ []) 0 (kept_in floats store digests resources plan op s)
  kept_in-Keeps op s e skip = record {
    drops = rw e (Sublistᴰ.refl _);
    hits = omega arith;
    whole = λ h h'. (skip, rw e refl);
  }

  dropped_in-Keeps :
      (op : Op) (s : FilterState floats.F)
      → s.block ≡ none
      → Keeps (op ∷ []) 0 (dropped_in floats store digests resources plan s)
  dropped_in-Keeps op s e = record {
    drops = rw e (Sublistᴰ.nil-sublist _);
    hits = omega arith;
    whole = λ h h'. absurd (omega (arith, h));
  }

  chosen-Keeps :
      (test : Bool) (op : Op) (s s' : FilterState floats.F)
      → s.block ≡ none
      → s'.block ≡ none
      → s.skip_depth ≡ 0
      → Keeps (op ∷ []) 0 (
          if test
          then dropped_in floats store digests resources plan s'
          else kept_in floats store digests resources plan op s)
  chosen-Keeps true op s s' e e' skip = dropped_in-Keeps op s' e'
  chosen-Keeps false op s s' e e' skip = kept_in-Keeps op s e skip

  outside-Keeps :
      (o : Operator) (op : Op) (s : FilterState floats.F)
      → s.block ≡ none
      → s.skip_depth ≡ 0
      → Keeps (op ∷ []) 0 (outside_by floats store digests resources plan o op s)
  outside-Keeps Operator.begin_marked_properties op s e skip =
      chosen-Keeps (is_marked_content floats store digests resources plan op.operands) op s
        (record s { skip_depth = 1 }) e e skip
  outside-Keeps Operator.begin_text op s e skip = record {
    drops = Sublistᴰ.refl _;
    hits = omega arith;
    whole = λ h h'. (skip, refl);
  }
  outside-Keeps Operator.draw_object op s e skip = chosen-Keeps _ op s s e e skip
  outside-Keeps Operator.inline_image op s e skip = chosen-Keeps _ op s s e e skip
  outside-Keeps Operator.save_state op s e skip = kept_in-Keeps op s e skip
  outside-Keeps _ op s e skip = kept_in-Keeps op s e skip

  closed-Keeps :
      (b : Block floats.F) (s : FilterState floats.F)
      → s.block ≡ none
      → s.skip_depth ≡ 0
      → Keeps b.operations 0 (closed floats store digests resources plan b s)
  closed-Keeps b s e skip =
      let nothing : Sublistᴰ (held s.block) b.operations = rw e (Sublistᴰ.nil-sublist _) in
      elim (Bool-cases (is_user_match plan.user_needle (normalise b.text))) [
        | inl user ↦ rw user (record {
          drops = nothing;
          hits = omega arith;
          whole = λ h h'. absurd (omega (arith, h));
        })
        | inr other ↦
            elim (Bool-cases (
              member (normalise b.text) plan.text_needles
              && has_traits floats store digests resources plan b)) [
                | inl found ↦
                    rw (other, found)
                      (record {
                        drops = nothing;
                        hits = omega arith;
                        whole = λ h h'. absurd (omega (arith, h));
                      })
                | inr clean ↦
                    let all : b.operations ++ held s.block ≡ b.operations =
                      rw e (append-nil b.operations) in
                    rw (other, clean)
                      (record {
                        drops = rw all (Sublistᴰ.refl _);
                        hits = omega arith;
                        whole = λ h h'. (skip, all);
                      })
              ]
      ]

  inside-Keeps :
      (o : Operator) (b : Block floats.F) (s : FilterState floats.F)
      → s.skip_depth ≡ 0
      → Keeps b.operations 0 (inside_by floats store digests resources plan o b s)
  inside-Keeps Operator.end_text b s skip = closed-Keeps b (record s { block = none }) refl skip
  inside-Keeps Operator.save_state b s skip = record {
    drops = Sublistᴰ.refl _;
    hits = omega arith;
    whole = λ h h'. (skip, refl);
  }
  inside-Keeps _ b s skip = record {
    drops = Sublistᴰ.refl _;
    hits = omega arith;
    whole = λ h h'. (skip, refl);
  }

  in_block-Keeps :
      (blk : Option (Block floats.F)) (op : Op) (s : FilterState floats.F)
      → s.block ≡ blk
      → s.skip_depth ≡ 0
      → Keeps (held blk ++ op ∷ []) 0 (in_block floats store digests resources plan blk op s)
  in_block-Keeps none op s e skip = outside-Keeps op.operator op s e skip
  in_block-Keeps (some b) op s e skip =
      let b' = with_operation floats store digests resources plan op.operator op s b in
      rw (← (with_operation-operations op.operator op s b)) (inside-Keeps op.operator b' s skip)

  step-Keeps :
      (depth : ℕ) (op : Op) (s : FilterState floats.F)
      → s.skip_depth ≡ depth
      → Keeps
          (held s.block ++ op ∷ [])
          depth
          (step_by floats store digests resources plan depth op s)
  step-Keeps zero op s e =
      let (same, skip) = tracked-block op.operator op.operands s in
      in_block-Keeps s.block op (tracked floats store digests resources plan op s) same (skip ∙ e)
  step-Keeps (suc depth) op s e = record {
    drops =
        subst (λ (l : List Op). Sublistᴰ l (held s.block ++ op ∷ [])) (append-nil (held s.block))
          (Sublistᴰ.append (Sublistᴰ.refl (held s.block)) (Sublistᴰ.nil-sublist (op ∷ [])));
    hits = omega arith;
    whole = λ h h'. absurd (omega (arith, h'));
  }

  filter_from-Keeps :
      (ops : List Op) (s : FilterState floats.F)
      → let (kept, removed, user_hits) = filter_from floats store digests resources plan s ops in
        Sublistᴰ kept (held s.block ++ ops)
        × (user_hits ≤ removed)
        × (removed ≡ 0 → s.skip_depth ≡ 0 → kept ≡ held s.block ++ ops)
  unfolding filter_step
  filter_from-Keeps [] s = (
    rw (append-nil (held s.block)) (Sublistᴰ.refl _),
    omega arith,
    λ h h'. sym (append-nil (held s.block)),
  )
  filter_from-Keeps (op ∷ ops) s =
      let step = step_by floats store digests resources plan s.skip_depth op s in
      let k = step-Keeps s.skip_depth op s refl in
      let (drops, hits, whole) = filter_from-Keeps ops step.state in
      let kept = (filter_from floats store digests resources plan step.state ops).0 in
      let split = append_assoc (held s.block) (op ∷ []) ops in
      let regroup = append_assoc step.kept (held step.state.block) ops in
      (
        subst (λ (l : List Op). Sublistᴰ (step.kept ++ kept) l) split
            (Sublistᴰ.trans (Sublistᴰ.append (Sublistᴰ.refl step.kept) drops) (
              subst (λ (l : List Op). Sublistᴰ l ((held s.block ++ op ∷ []) ++ ops)) regroup
                (Sublistᴰ.append k.drops (Sublistᴰ.refl ops)))),
        omega (arith, k.hits, hits),
        λ h h'.
            let (open_, same) = k.whole (omega (arith, h)) h' in
            ap (λ l. step.kept ++ l) (whole (omega (arith, h)) open_)
            ∙ sym regroup
            ∙ ap (λ l. l ++ ops) same
            ∙ split,
      )

  -- The rewrite only drops operations: what it keeps stands in the stream in the same order. It counts
  -- every removal, of which the matches of the user's text are a part: if it counts none, then the
  -- stream is kept as it is.
  pub filter_operations-Sublist :
      (ops : List Op)
      → let (kept, removed, user_hits) =
          filter_operations floats store digests resources plan ops in
        Sublistᴰ kept ops × (user_hits ≤ removed) × (removed ≡ 0 → kept ≡ ops)
  unfolding filter_operations
  filter_operations-Sublist ops =
      let (drops, hits, whole) =
        filter_from-Keeps ops (initial floats store digests resources plan) in
      (drops, hits, λ h. whole h refl)
