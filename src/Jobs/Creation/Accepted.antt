-- ===== src/Jobs/Creation/Accepted.antt =====
-- What holds of the inputs that job creation accepts (`_validate_inputs` of app/services/tool_base.py).
use tools_backend.Base.{
  ℕ, ◌≤◌, ◌≡◌, refl, inl, inr, Bool, true, false, ◌&&◌, not, Option, none, some, List, [], ◌∷◌,
  arith, ltb, leb, ◌==◌, leb→le, ==_iff, Bool-cases, length, ok, >>=-eq-ok, raise_if-eq-ok, Text,
  member, not-false, not_ltb→le,
}
use tools_backend.Constants.{FileStatus, file_status_is_active}
use tools_backend.Plans.{PlanLimits, limits_for_plan, max_file_size_bytes, max_total_size_bytes}
use tools_backend.Jobs.Rows.{StoredFile}
use tools_backend.Jobs.Repository.{get_active, same_owner}
use tools_backend.Jobs.Creation.{
  ToolService, found_or_missing, validate_input, validate_each, validate_inputs, total_size,
}

-- An input that a tool may process for a caller.
pub record IsUsable (tool : ToolService) (limits : PlanLimits) (user_id : Option ℕ) (f : StoredFile)
    : Type 0 where
  pub active : f.status ≡ FileStatus.active
  pub owned : f.user_id ≡ user_id
  pub typed : member f.extension tool.allowed_input_extensions ≡ true
  pub small : f.size_bytes ≤ max_file_size_bytes limits

same_owner→eq : (a b : Option ℕ) → same_owner a b ≡ true → a ≡ b
same_owner→eq none none h = refl
same_owner→eq none (some b) h = cc
same_owner→eq (some a) none h = cc
same_owner→eq (some a) (some b) h = ground arith

status→eq : (s : FileStatus) → file_status_is_active s ≡ true → s ≡ FileStatus.active
status→eq FileStatus.active h = refl
status→eq FileStatus.expired h = cc
status→eq FileStatus.deleted h = cc

three_tests : (a b c : Bool) → (a && b && c) ≡ true → (a ≡ true) × (b ≡ true) × (c ≡ true)
three_tests a b c h = ground arith

pub get_active-some :
    (files : List StoredFile) (file_id : ℕ) (user_id : Option ℕ) (f : StoredFile)
    → get_active files file_id user_id ≡ some f
    → (f.id ≡ file_id) × (f.status ≡ FileStatus.active) × (f.user_id ≡ user_id)
unfolding get_active
get_active-some [] file_id user_id f h = cc
get_active-some (g ∷ gs) file_id user_id f h =
    elim (Bool-cases
      ((g.id == file_id) && file_status_is_active g.status && same_owner g.user_id user_id)) [
        | inl fits ↦
            let e : g ≡ f = (let h' = rw fits at h in cc) in
            let (a, b, c) =
              three_tests (g.id == file_id) (file_status_is_active g.status)
                (same_owner g.user_id user_id) fits in
            rw (← e)
              ((==_iff g.id file_id).0 a, status→eq g.status b, same_owner→eq g.user_id user_id c)
        | inr other ↦ get_active-some gs file_id user_id f (rw other at h)
      ]

both_tests : (a b : Bool) → not (a && b) ≡ false → (a ≡ true) × (b ≡ true)
both_tests a b h = ground arith

found-some : (o : Option StoredFile) (f : StoredFile) → found_or_missing o ≡ ok f → o ≡ some f
found-some none f h = cc
found-some (some g) f h = ground arith

pub validate_input-active :
    (tool : ToolService) (limits : PlanLimits) (files : List StoredFile) (user_id : Option ℕ)
    (file_id : ℕ) (f : StoredFile)
    → validate_input tool limits files user_id file_id ≡ ok f
    → get_active files file_id user_id ≡ some f
unfolding validate_input
validate_input-active tool limits files user_id file_id f h =
    let (g, found, rest) = >>=-eq-ok (found_or_missing (get_active files file_id user_id)) _ h in
    let (typed, rest') =
      raise_if-eq-ok (not (member g.extension tool.allowed_input_extensions)) _ _ rest in
    let (small, same) = raise_if-eq-ok (ltb (max_file_size_bytes limits) g.size_bytes) _ _ rest' in
    let e : g ≡ f = cc in rw (← e) (found-some (get_active files file_id user_id) g found)

validate_input-IsUsable :
    (tool : ToolService) (limits : PlanLimits) (files : List StoredFile) (user_id : Option ℕ)
    (file_id : ℕ) (f : StoredFile)
    → validate_input tool limits files user_id file_id ≡ ok f
    → (f.id ≡ file_id) × IsUsable tool limits user_id f
unfolding validate_input
validate_input-IsUsable tool limits files user_id file_id f h =
    let (g, found, rest) = >>=-eq-ok (found_or_missing (get_active files file_id user_id)) _ h in
    let (typed, rest') =
      raise_if-eq-ok (not (member g.extension tool.allowed_input_extensions)) _ _ rest in
    let (small, same) = raise_if-eq-ok (ltb (max_file_size_bytes limits) g.size_bytes) _ _ rest' in
    let (is_id, active, owned) =
      get_active-some files file_id user_id g
        (found-some (get_active files file_id user_id) g found) in
    let e : g ≡ f = cc in
    rw (← e) (
      is_id,
      record {
        active = active;
        owned = owned;
        typed = not-false (member g.extension tool.allowed_input_extensions) typed;
        small = not_ltb→le (max_file_size_bytes limits) g.size_bytes small;
      },
    )

-- The accepted inputs are usable, and are those that were asked for, in that order.
abbrev pub AreUsable : ToolService → PlanLimits → Option ℕ → List ℕ → List StoredFile → Type 0
AreUsable tool limits user_id [] [] = Unit
AreUsable tool limits user_id [] (_ ∷ _) = ⊥
AreUsable tool limits user_id (_ ∷ _) [] = ⊥
AreUsable tool limits user_id (file_id ∷ file_ids) (f ∷ fs) =
    ((f.id ≡ file_id) × IsUsable tool limits user_id f) × AreUsable tool limits user_id file_ids fs

validate_each-AreUsable :
    (tool : ToolService) (limits : PlanLimits) (files : List StoredFile) (user_id : Option ℕ)
    (file_ids : List ℕ) (fs : List StoredFile)
    → validate_each tool limits files user_id file_ids ≡ ok fs
    → AreUsable tool limits user_id file_ids fs
unfolding validate_each
validate_each-AreUsable tool limits files user_id [] fs h = let e : [] ≡ fs = cc in rw (← e) tt
validate_each-AreUsable tool limits files user_id (file_id ∷ file_ids) fs h =
    let (f, valid, rest) = >>=-eq-ok (validate_input tool limits files user_id file_id) _ h in
    let (gs, all_valid, same) =
      >>=-eq-ok (validate_each tool limits files user_id file_ids) _ rest in
    let e : f ∷ gs ≡ fs = cc in
    rw (← e) (
      validate_input-IsUsable tool limits files user_id file_id f valid,
      validate_each-AreUsable tool limits files user_id file_ids gs all_valid,
    )

-- Accepted inputs are exactly the requested files, in order; each is active, owned by the caller, of
-- an accepted type and within the plan's per-file limit; their number is within the tool's range
-- and the plan's limit, and their combined size within the plan's.
pub validate_inputs-AreUsable :
    (tool : ToolService) (files : List StoredFile) (file_ids : List ℕ) (user_id : Option ℕ)
    (plan : Option Text) (fs : List StoredFile)
    → validate_inputs tool files file_ids user_id plan ≡ ok fs
    → AreUsable tool (limits_for_plan plan) user_id file_ids fs
      × (tool.min_input_files ≤ length file_ids)
      × (length file_ids ≤ tool.max_input_files)
      × (length file_ids ≤ (limits_for_plan plan).max_files)
      × (total_size fs ≤ max_total_size_bytes (limits_for_plan plan))
unfolding validate_inputs
validate_inputs-AreUsable tool files file_ids user_id plan fs h =
    let limits = limits_for_plan plan in
    let (count, rest) =
      raise_if-eq-ok
        (not (
          leb tool.min_input_files (length file_ids) && leb (length file_ids) tool.max_input_files))
        _ _ h in
    let (plan_count, rest') = raise_if-eq-ok (ltb limits.max_files (length file_ids)) _ _ rest in
    let (gs, valid, rest'') =
      >>=-eq-ok (validate_each tool limits files user_id file_ids) _ rest' in
    let (total, same) =
      raise_if-eq-ok (ltb (max_total_size_bytes limits) (total_size gs)) _ _ rest'' in
    let e : gs ≡ fs = cc in
    let (low, high) =
      both_tests (leb tool.min_input_files (length file_ids))
        (leb (length file_ids) tool.max_input_files) count in
    rw (← e) (
      validate_each-AreUsable tool limits files user_id file_ids gs valid,
      leb→le _ _ low,
      leb→le _ _ high,
      not_ltb→le limits.max_files (length file_ids) plan_count,
      not_ltb→le (max_total_size_bytes limits) (total_size gs) total,
    )
