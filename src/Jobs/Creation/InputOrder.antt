-- ===== src/Jobs/Creation/InputOrder.antt =====
-- The inputs of a created job, as the worker will load them: from the INPUT links, by position
-- (`create_job` of app/services/tool_base.py, `load_inputs` of app/tasks/base.py).
use tools_backend.Base.{
  ℕ, suc, ◌<◌, ◌≡◌, refl, sym, ap, ◌∙◌, inl, inr, false, ◌&&◌, not, Option, some, List, [], ◌∷◌,
  ◌++◌, map, arith, ltb, leb, ◌==◌, ==_iff, Bool-cases, length, ok, >>=-eq-ok, raise_if-eq-ok, Text,
}
use mathlib.Core.Path.{subst}
use mathlib.Core.List.{Permᴰ}
use mathlib.Core.List.Permᴰ
use tools_backend.Sorting.{
  DiffersFrom, AreDifferent, IsSorted, sort_by-perm, sort_by-IsSorted, keep_if-perm,
}
use tools_backend.Constants.{JobFileRole, is_input}
use tools_backend.Jobs.Rows.{
  StoredFile, ProcessingJob, JobFile, Db, find_file, sort_links, position_of, links_of, files_of,
}
use tools_backend.Jobs.Runner.{inputs_of}
use tools_backend.Jobs.Creation.{
  ToolService, PageVisit, Client, Options, create_job, validate_inputs, validate_each,
  validate_input, total_size, queued_job, input_links, with_job,
}
use tools_backend.Plans.{PlanLimits, limits_for_plan, max_total_size_bytes}
use tools_backend.Jobs.Repository.{get_active}
use tools_backend.Jobs.Creation.Accepted.{validate_input-active, get_active-some}
use tools_backend.Jobs.Creation.Dispatch.{create_job-steps}

-- No link belongs to an identifier that is handed out next.
abbrev pub LinksAreBelow : ℕ → List JobFile → Type 0
LinksAreBelow n [] = Unit
LinksAreBelow n (l ∷ ls) = (l.job_id < n) × LinksAreBelow n ls

-- Every identifier of a list has a row.
abbrev HaveRows : List StoredFile → List ℕ → Type 0
HaveRows files [] = Unit
HaveRows files (i ∷ is) =
    ((f : StoredFile) × (find_file i files ≡ some f) × (f.id ≡ i)) × HaveRows files is

abbrev pub file_ids_of : List StoredFile → List ℕ
file_ids_of fs = map (λ f. f.id) fs

lt-not_same : (a b : ℕ) → a < b → (a == b) ≡ false
lt-not_same a b h = ground arith

links_of-fresh :
    (n : ℕ) (ls ms : List JobFile)
    → LinksAreBelow n ls
    → links_of n is_input (ls ++ ms) ≡ links_of n is_input ms
links_of-fresh n [] ms below = refl
links_of-fresh n (l ∷ ls) ms (lt, below) =
    rw (lt-not_same l.job_id n lt, links_of-fresh n ls ms below)

links_of-input_links :
    (n p : ℕ) (fs : List StoredFile) → links_of n is_input (input_links n p fs) ≡ input_links n p fs
unfolding input_links
links_of-input_links n p [] = refl
links_of-input_links n p (f ∷ fs) = rw ((==_iff n n).1 refl, links_of-input_links n (suc p) fs)

DiffersFrom-input_links :
    (l : JobFile) (n q : ℕ) (fs : List StoredFile)
    → l.position < q
    → DiffersFrom position_of l (input_links n q fs)
unfolding input_links
DiffersFrom-input_links l n q [] lt = tt
DiffersFrom-input_links l n q (f ∷ fs) lt =
    (ground arith, DiffersFrom-input_links l n (suc q) fs (omega arith))

AreDifferent-input_links :
    (n p : ℕ) (fs : List StoredFile) → AreDifferent position_of (input_links n p fs)
unfolding input_links
AreDifferent-input_links n p [] = tt
AreDifferent-input_links n p (f ∷ fs) = (
  DiffersFrom-input_links
      (record { job_id = n; file_id = f.id; role = JobFileRole.input; position = p }) n (suc p) fs
      (omega arith),
  AreDifferent-input_links n (suc p) fs,
)

IsSorted-input_links : (n p : ℕ) (fs : List StoredFile) → IsSorted position_of (input_links n p fs)
unfolding input_links
IsSorted-input_links n p [] = tt
IsSorted-input_links n p (f ∷ []) = tt
IsSorted-input_links n p (f ∷ g ∷ fs) = (omega arith, IsSorted-input_links n (suc p) (g ∷ fs))

-- In whatever order the links come, sorting them restores that of the request.
sort_links-input_links :
    (n p : ℕ) (fs : List StoredFile) (ls : List JobFile)
    → Permᴰ ls (input_links n p fs)
    → sort_links ls ≡ input_links n p fs
sort_links-input_links n p fs ls perm =
    sym (sort_by-perm position_of (Permᴰ.symm perm) (AreDifferent-input_links n p fs))
    ∙ sort_by-IsSorted position_of (input_links n p fs) (IsSorted-input_links n p fs)

files_of-input_links :
    (files : List StoredFile) (n p : ℕ) (fs : List StoredFile)
    → HaveRows files (file_ids_of fs)
    → file_ids_of (files_of files (input_links n p fs)) ≡ file_ids_of fs
unfolding input_links
files_of-input_links files n p [] have = refl
files_of-input_links files n p (f ∷ fs) ((g, found, same), have) =
    rw (found, same, files_of-input_links files n (suc p) fs have)

find_file-get_active :
    (files : List StoredFile) (file_id : ℕ) (user_id : Option ℕ) (f : StoredFile)
    → get_active files file_id user_id ≡ some f
    → (g : StoredFile) × (find_file file_id files ≡ some g) × (g.id ≡ file_id)
unfolding get_active
find_file-get_active [] file_id user_id f h = cc
find_file-get_active (g ∷ gs) file_id user_id f h = elim (Bool-cases (g.id == file_id)) [
  | inl same ↦ (g, rw same, (==_iff g.id file_id).0 same)
  | inr other ↦
      let (k, found, is_id) = find_file-get_active gs file_id user_id f (rw other at h) in
      (k, rw other found, is_id)
]

validate_each-HaveRows :
    (tool : ToolService) (limits : PlanLimits) (files : List StoredFile) (user_id : Option ℕ)
    (file_ids : List ℕ) (fs : List StoredFile)
    → validate_each tool limits files user_id file_ids ≡ ok fs
    → HaveRows files (file_ids_of fs) × (file_ids_of fs ≡ file_ids)
unfolding validate_each
validate_each-HaveRows tool limits files user_id [] fs h =
    let e : [] ≡ fs = cc in rw (← e) (tt, refl)
validate_each-HaveRows tool limits files user_id (file_id ∷ file_ids) fs h =
    let (f, valid, rest) = >>=-eq-ok (validate_input tool limits files user_id file_id) _ h in
    let (gs, all_valid, same) =
      >>=-eq-ok (validate_each tool limits files user_id file_ids) _ rest in
    let e : f ∷ gs ≡ fs = cc in
    let active = validate_input-active tool limits files user_id file_id f valid in
    let (is_id, _, _) = get_active-some files file_id user_id f active in
    let (have, ids) = validate_each-HaveRows tool limits files user_id file_ids gs all_valid in
    rw (← e)
      ((rw is_id (find_file-get_active files file_id user_id f active), have), rw (is_id, ids))

validate_inputs-HaveRows :
    (tool : ToolService) (files : List StoredFile) (file_ids : List ℕ) (user_id : Option ℕ)
    (plan : Option Text) (fs : List StoredFile)
    → validate_inputs tool files file_ids user_id plan ≡ ok fs
    → HaveRows files (file_ids_of fs) × (file_ids_of fs ≡ file_ids)
unfolding validate_inputs
validate_inputs-HaveRows tool files file_ids user_id plan fs h =
    let limits = limits_for_plan plan in
    let (_, rest) =
      raise_if-eq-ok
        (not (
          leb tool.min_input_files (length file_ids) && leb (length file_ids) tool.max_input_files))
        _ _ h in
    let (_, rest') = raise_if-eq-ok (ltb limits.max_files (length file_ids)) _ _ rest in
    let (gs, valid, rest'') =
      >>=-eq-ok (validate_each tool limits files user_id file_ids) _ rest' in
    let (_, same) = raise_if-eq-ok (ltb (max_total_size_bytes limits) (total_size gs)) _ _ rest'' in
    let e : gs ≡ fs = cc in
    rw (← e) (validate_each-HaveRows tool limits files user_id file_ids gs valid)

-- If no link belongs to an unused identifier, then in whatever order the table of links gives its
-- rows back, the worker loads the inputs of a job, once created and queued, as exactly the files that
-- were asked for, in the order of the request.
pub create_job-input_order :
    (tool : ToolService) (visits : List PageVisit) (client : Client)
    (now later retention task_id : ℕ) (db db' : Db) (file_ids : List ℕ) (options : Options)
    (job : ProcessingJob) (links : List JobFile)
    → LinksAreBelow db.next_id db.links
    → create_job (λ _ d. some d) tool visits client now later retention task_id db file_ids options
      ≡ ok (job, db')
    → Permᴰ links db'.links
    → file_ids_of (inputs_of job (record db' { links = links })) ≡ file_ids
unfolding queued_job
create_job-input_order tool visits client now later retention task_id db db' file_ids options job
      links below h perm =
    let (validated, fs, v, i, e) =
      create_job-steps (λ _ d. some d) tool visits client now later retention task_id db file_ids
        options (job, db') h in
    let queued = queued_job tool visits client validated now retention task_id db.next_id in
    let is_job : queued ≡ job = ap (λ p. p.0) e in
    let is_db : with_job db queued fs ≡ db' = ap (λ p. p.1) e in
    let (have, ids) =
      validate_inputs-HaveRows tool db.files file_ids client.user_id client.plan fs i in
    let stored : Permᴰ links (db.links ++ input_links db.next_id 0 fs) =
      subst (λ (d : Db). Permᴰ links d.links) (sym is_db) perm in
    let new_links =
      links_of-fresh db.next_id db.links (input_links db.next_id 0 fs) below
      ∙ links_of-input_links db.next_id 0 fs in
    let kept : Permᴰ (links_of db.next_id is_input links) (input_links db.next_id 0 fs) =
      rw (← new_links)
        (keep_if-perm (λ (l : JobFile). (l.job_id == db.next_id) && is_input l.role) stored) in
    let sorted = sort_links-input_links db.next_id 0 fs (links_of db.next_id is_input links) kept in
    rw (← is_job)
      (rw (← is_db) (rw sorted (rw (files_of-input_links db.files db.next_id 0 fs have) ids)))
