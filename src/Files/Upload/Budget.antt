-- ===== src/Files/Upload/Budget.antt =====
-- The limits that an accepted batch keeps (`upload_files` of app/services/upload.py).
use tools_backend.Base.{
  ℕ, suc, ◌+◌, ◌-◌, ◌≤◌, min, ◌≡◌, refl, ap, inl, inr, Option, some, List, [], ◌∷◌, arith, ltb,
  Bool-cases, length, All, Result, ok, err, >>=-eq-ok, Text,
}
use tools_backend.Constants.{FileStatus}
use tools_backend.Exceptions.{AppException}
use tools_backend.Plans.{PlanLimits, limits_for_plan, max_file_size_bytes, max_total_size_bytes}
use tools_backend.Jobs.Rows.{StoredFile}
use tools_backend.Files.Disk.{Disk}
use tools_backend.Files.Types.{validate_file_count}
use tools_backend.Files.Upload.{
  Surroundings, UploadFile, store_one, store_all, with_file, rolled_back, counted, upload_files,
}
use tools_backend.Files.Upload.Stored.{Outcome, store_one-steps}

abbrev pub size_of_all : List StoredFile → ℕ
size_of_all [] = 0
size_of_all (f ∷ fs) = f.size_bytes + size_of_all fs

-- A row of an accepted batch.
pub record IsAccepted (limits : PlanLimits) (user_id : Option ℕ) (f : StoredFile) : Type 0 where
  pub active : f.status ≡ FileStatus.active
  pub owned : f.user_id ≡ user_id
  pub small : f.size_bytes ≤ max_file_size_bytes limits

-- Of the rows of a loop over `count` uploads with `remaining` bytes left.
record IsWithin (limits : PlanLimits) (user_id : Option ℕ) (count remaining : ℕ)
    (fs : List StoredFile) : Type 0 where
  one_each : length fs ≡ count
  accepted : All (IsAccepted limits user_id) fs
  total : size_of_all fs ≤ remaining

with_file-IsWithin :
    (env : Surroundings) (limits : PlanLimits) (user_id : Option ℕ) (n count remaining : ℕ)
    (go : ℕ → Disk → Result AppException (List StoredFile) × Disk × List StoredFile)
    → ((left : ℕ) (d : Disk) (fs : List StoredFile)
        → (go left d).0 ≡ ok fs
        → IsWithin limits user_id count left fs)
    → (stored : Result AppException StoredFile × Disk)
    → Outcome env user_id n (min (max_file_size_bytes limits) remaining) stored.1 stored.0
    → (fs : List StoredFile) → (with_file go remaining stored).0 ≡ ok fs
    → IsWithin limits user_id (suc count) remaining fs
with_file-IsWithin env limits user_id n count remaining go within (err e, disk) out fs h = cc
with_file-IsWithin env limits user_id n count remaining go within (ok f, disk) out fs h =
    let (gs, rest, same) = >>=-eq-ok (go (remaining - f.size_bytes) disk).0 _ h in
    let w = within (remaining - f.size_bytes) disk gs rest in
    let e : f ∷ gs ≡ fs = cc in
    let s = out.small in
    rw (← e) (record {
      one_each = ap suc w.one_each;
      accepted =
          (record { active = out.active; owned = out.owned; small = omega arith }, w.accepted);
      total = (let t = w.total in omega arith);
    })

store_all-IsWithin :
    (env : Surroundings) (allowed : Option (List Text)) (user_id : Option ℕ) (limits : PlanLimits)
    (n remaining : ℕ) (uploads : List UploadFile) (disk : Disk) (fs : List StoredFile)
    → (store_all env allowed user_id limits n remaining uploads disk).0 ≡ ok fs
    → IsWithin limits user_id (length uploads) remaining fs
unfolding store_all
store_all-IsWithin env allowed user_id limits n remaining [] disk fs h =
    let e : [] ≡ fs = cc in
    rw (← e) (record { one_each = refl; accepted = tt; total = omega arith })
store_all-IsWithin env allowed user_id limits n remaining (upload ∷ uploads) disk fs h =
    with_file-IsWithin env limits user_id n (length uploads) remaining
      (λ left d. store_all env allowed user_id limits (suc n) left uploads d)
      (λ left d gs. store_all-IsWithin env allowed user_id limits (suc n) left uploads d gs)
      (store_one env allowed user_id n (min (max_file_size_bytes limits) remaining)
        (ltb remaining (max_file_size_bytes limits)) upload disk)
      (store_one-steps env user_id n (min (max_file_size_bytes limits) remaining) allowed
        (ltb remaining (max_file_size_bytes limits)) upload disk).0
      fs h

rolled_back-ok :
    (env : Surroundings) (stored : Result AppException (List StoredFile) × Disk × List StoredFile)
    (fs : List StoredFile)
    → (rolled_back env stored).0 ≡ ok fs
    → stored.0 ≡ ok fs
rolled_back-ok env (err e, disk, written) fs h = cc
rolled_back-ok env (ok gs, disk, written) fs h = elim (Bool-cases env.commits) [
  | inl commits ↦ rw commits at h
  | inr lost ↦ let h' = rw lost at h in cc
]

counted-ok :
    (checked : Result AppException (Unit {0}))
    (stored : Result AppException (List StoredFile) × Disk) (disk : Disk) (fs : List StoredFile)
    → (counted checked stored disk).0 ≡ ok fs
    → (checked ≡ ok tt) × (stored.0 ≡ ok fs)
counted-ok (err e) stored disk fs h = cc
counted-ok (ok tt) stored disk fs h = (refl, h)

-- When an upload is accepted, there is one row for each file of the request; every row is ACTIVE,
-- owned by the caller and within the plan's per-file limit, and the sizes counted while streaming
-- add up to no more than the plan's combined limit.
pub upload_files-within_limits :
    (env : Surroundings) (allowed : Option (List Text)) (user_id : Option ℕ) (plan : Option Text)
    (n : ℕ) (uploads : List UploadFile) (disk : Disk) (fs : List StoredFile)
    → (upload_files env allowed user_id plan n uploads disk).0 ≡ ok fs
    → (length fs ≡ length uploads)
      × All (IsAccepted (limits_for_plan plan) user_id) fs
      × (size_of_all fs ≤ max_total_size_bytes (limits_for_plan plan))
unfolding upload_files
upload_files-within_limits env allowed user_id plan n uploads disk fs h =
    let limits = limits_for_plan plan in
    let stored =
      store_all env allowed user_id limits n (max_total_size_bytes limits) uploads disk in
    let (checked, rest) =
      counted-ok
        (validate_file_count env.max_files_per_upload (length uploads) (some limits.max_files))
        (rolled_back env stored) disk fs h in
    let w =
      store_all-IsWithin env allowed user_id limits n (max_total_size_bytes limits) uploads disk fs
        (rolled_back-ok env stored fs rest) in
    (w.one_each, w.accepted, w.total)
