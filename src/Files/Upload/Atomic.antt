-- ===== src/Files/Upload/Atomic.antt =====
-- A failed upload leaves no bytes behind (`upload_files` of app/services/upload.py).
use tools_backend.Base.{
  ℕ, suc, ◌-◌, min, ◌≡◌, refl, sym, ◌∙◌, ◌≢◌, inl, inr, true, Option, none, some, List, [], ◌∷◌,
  ltb, Bool-cases, length, All, Result, ok, err, Text, text_eq, text_eq_refl, text_eq→eq,
}
use tools_backend.Constants.{FileCategory}
use tools_backend.Exceptions.{AppException}
use tools_backend.Plans.{PlanLimits, limits_for_plan, max_file_size_bytes, max_total_size_bytes}
use tools_backend.Jobs.Rows.{StoredFile}
use tools_backend.Files.Disk.{Disk, lookup, resolve, delete, unlink, join}
use tools_backend.Files.Disk.Written.{lookup-unlink_self, lookup-unlink_ne}
use tools_backend.Files.Types.{validate_file_count}
use tools_backend.Files.Upload.{
  Surroundings, UploadFile, store_one, store_all, with_file, rolled_back, counted, upload_files,
  delete_all, relative_of,
}
use tools_backend.Files.Upload.Stored.{Outcome, IsStored, Changes, place, store_one-steps}

-- Where a stored row's bytes are.
abbrev path_of : Surroundings → StoredFile → Text
path_of env f = join (env.fs.root FileCategory.upload) f.relative_path

abbrev Avoids : Surroundings → Text → List StoredFile → Type 0
Avoids env p [] = Unit
Avoids env p (f ∷ fs) = (path_of env f ≢ p) × Avoids env p fs

-- The disk is the original one but for the paths of these files.
abbrev Agrees : Surroundings → Disk → List StoredFile → Disk → Type 0
Agrees env disk files disk' = (p : Text) → Avoids env p files → lookup p disk' ≡ lookup p disk

-- Fresh names are not on the disk, and the paths made of them are resolved paths of the tree.
pub record HasFreshNames (env : Surroundings) (disk : Disk) : Type 0 where
  pub unused : (n : ℕ) (extension : Text) → lookup (place env n extension) disk ≡ none
  pub resolved :
      (n : ℕ) (extension : Text)
      → resolve env.fs FileCategory.upload (relative_of env n extension)
        ≡ some (place env n extension)

-- The rollback finds the file of the row, and the path was free.
record IsRemovable (env : Surroundings) (disk : Disk) (f : StoredFile) : Type 0 where
  found : resolve env.fs f.category f.relative_path ≡ some (path_of env f)
  free : lookup (path_of env f) disk ≡ none

delete_all-restores :
    (env : Surroundings) (disk : Disk) (files : List StoredFile) (disk' : Disk)
    → All (IsRemovable env disk) files
    → Agrees env disk files disk'
    → (p : Text) → lookup p (delete_all env.fs files disk') ≡ lookup p disk
unfolding delete
delete_all-restores env disk [] disk' removable agrees p = agrees p tt
delete_all-restores env disk (f ∷ fs) disk' (r, removable) agrees p = rw r.found (
    delete_all-restores env disk fs (unlink (path_of env f) disk') removable
      (λ q avoids. elim (Bool-cases (text_eq (path_of env f) q)) [
        | inl same ↦
            let e = text_eq→eq (path_of env f) q same in
            rw (← e) (lookup-unlink_self (path_of env f) disk' ∙ sym r.free)
        | inr other ↦
            let ne : path_of env f ≢ q =
              λ e. let t = text_eq_refl q in let t' = rw e at other in cc in
            lookup-unlink_ne (path_of env f) q disk' ne ∙ agrees q (ne, avoids)
      ])
      p)

module _ (env : Surroundings) (disk : Disk) (fresh : HasFreshNames env disk)
    (user_id : Option ℕ) where
  stored-IsRemovable :
      (n max_bytes : ℕ) (disk' : Disk) (f : StoredFile)
      → IsStored env user_id n max_bytes disk' f
      → (path_of env f ≡ place env n f.extension) × IsRemovable env disk f
  stored-IsRemovable n max_bytes disk' f s = (
    rw s.placed,
    record {
      found = rw (s.uploaded, s.placed) (fresh.resolved n f.extension);
      free = rw s.placed (fresh.unused n f.extension);
    },
  )

  -- What the loop leaves: the written files can be removed, and a failing loop has touched only them.
  abbrev Left :
      List StoredFile → Result AppException (List StoredFile) × Disk × List StoredFile → Type 0
  Left before (result, disk', written) =
      All (IsRemovable env disk) written
      × ((p : Text) → Avoids env p before → Avoids env p written → lookup p disk' ≡ lookup p disk)

  with_file-Left :
      (accepts : (f : StoredFile) → env.accepts f ≡ true) (n max_bytes remaining : ℕ)
      (before : List StoredFile) (d : Disk)
      (go : ℕ → Disk → Result AppException (List StoredFile) × Disk × List StoredFile)
      → Agrees env disk before d
      → ((left : ℕ) (d' : Disk) (f : StoredFile)
          → Agrees env disk (f ∷ before) d'
          → Left (f ∷ before) (go left d'))
      → (stored : Result AppException StoredFile × Disk)
      → Outcome env user_id n max_bytes stored.1 stored.0
      → Changes env n d stored.1 stored.0
      → Left before (with_file go remaining stored)
  with_file-Left accepts n max_bytes remaining before d go agrees left (err e, d') out changes = (
    tt,
    λ p avoids _. elim (changes accepts p) [
      | inl same ↦ same ∙ agrees p avoids
      | inr (extension, at_place, gone) ↦ gone ∙ sym (rw at_place at (fresh.unused n extension))
    ],
  )
  with_file-Left accepts n max_bytes remaining before d go agrees left (ok f, d') out changes =
      let (same, removable) = stored-IsRemovable n max_bytes d' f out in
      let (rs, others) =
        left (remaining - f.size_bytes) d' f
          (λ p avoids. changes p (λ e. avoids.0 (same ∙ e)) ∙ agrees p avoids.1) in
      ((removable, rs), λ p avoids written. others p (written.0, avoids) written.1)

  store_all-Left :
      (accepts : (f : StoredFile) → env.accepts f ≡ true) (allowed : Option (List Text))
      (limits : PlanLimits) (n remaining : ℕ) (uploads : List UploadFile) (before : List StoredFile)
      (d : Disk)
      → Agrees env disk before d
      → Left before (store_all env allowed user_id limits n remaining uploads d)
  unfolding store_all
  store_all-Left accepts allowed limits n remaining [] before d agrees =
      (tt, λ p avoids _. agrees p avoids)
  store_all-Left accepts allowed limits n remaining (upload ∷ uploads) before d agrees =
      let max_bytes = min (max_file_size_bytes limits) remaining in
      let steps =
        store_one-steps env user_id n max_bytes allowed (ltb remaining (max_file_size_bytes limits))
          upload d in
      with_file-Left accepts n max_bytes remaining before d
        (λ left d'. store_all env allowed user_id limits (suc n) left uploads d') agrees
        (λ left d' f agrees'.
          store_all-Left accepts allowed limits (suc n) left uploads (f ∷ before) d' agrees')
        (store_one env allowed user_id n max_bytes (ltb remaining (max_file_size_bytes limits))
          upload d)
        steps.0 steps.1

  rolled_back-restores :
      (left : Result AppException (List StoredFile) × Disk × List StoredFile) (e : AppException)
      → Left [] left
      → (rolled_back env left).0 ≡ err e
      → (p : Text) → lookup p (rolled_back env left).1 ≡ lookup p disk
  rolled_back-restores (err x, d, written) e (removable, others) h p =
      delete_all-restores env disk written d removable (λ q avoids. others q tt avoids) p
  rolled_back-restores (ok fs, d, written) e (removable, others) h p =
      elim (Bool-cases env.commits) [
        | inl commits ↦ let h' = rw commits at h in cc
        | inr lost ↦
            rw lost
              (delete_all-restores env disk written d removable (λ q avoids. others q tt avoids) p)
      ]

  counted-restores :
      (checked : Result AppException (Unit {0}))
      (left : Result AppException (List StoredFile) × Disk × List StoredFile) (e : AppException)
      → Left [] left
      → (counted checked (rolled_back env left) disk).0 ≡ err e
      → (p : Text) → lookup p (counted checked (rolled_back env left) disk).1 ≡ lookup p disk
  counted-restores (err x) left e l h p = refl
  counted-restores (ok _) left e l h p = rolled_back-restores left e l h p

-- When fresh names are unused and the flushes of the database succeed, a batch that is refused at
-- any point (a bad file, a size limit, a read that raises, a failed commit) leaves every path of
-- the disk as it was.
pub upload_files-atomic :
    (env : Surroundings) (allowed : Option (List Text)) (user_id : Option ℕ) (plan : Option Text)
    (n : ℕ) (uploads : List UploadFile) (disk : Disk) (e : AppException)
    → HasFreshNames env disk
    → ((f : StoredFile) → env.accepts f ≡ true)
    → (upload_files env allowed user_id plan n uploads disk).0 ≡ err e
    → (p : Text) → lookup p (upload_files env allowed user_id plan n uploads disk).1 ≡ lookup p disk
unfolding upload_files
upload_files-atomic env allowed user_id plan n uploads disk e fresh accepts h p =
    let limits = limits_for_plan plan in
    counted-restores env disk fresh user_id
      (validate_file_count env.max_files_per_upload (length uploads) (some limits.max_files))
      (store_all env allowed user_id limits n (max_total_size_bytes limits) uploads disk) e
      (store_all-Left env disk fresh user_id accepts allowed limits n (max_total_size_bytes limits)
        uploads [] disk (λ q _. refl))
      h p
