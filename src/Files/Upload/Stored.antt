-- ===== src/Files/Upload/Stored.antt =====
-- What storing one upload does (`_store_one` of app/services/upload.py).
use tools_backend.Base.{
  ℕ, ◌≤◌, ◌≡◌, refl, ◌≢◌, ◌⊎◌, inl, inr, Bool, true, false, Option, none, some, List, if◌then◌else◌,
  Bool-cases, length, Result, ok, err, Text, codes, text_eq, text_eq_refl, text_eq→eq,
}
use tools_backend.Constants.{FileStatus, FileCategory}
use tools_backend.Exceptions.{AppException, database_error}
use tools_backend.Jobs.Rows.{StoredFile}
use tools_backend.Files.Disk.{Bytes, Disk, lookup, join, write_stream}
use tools_backend.Files.Disk.Written.{IsWritten, write_stream-bounded}
use tools_backend.Files.Types.{FileTypeSpec, validate_file_type}
use tools_backend.Filenames.{sanitize_filename}
use tools_backend.Files.Upload.{
  Surroundings, UploadFile, relative_of, new_file, recorded, typed, store_one, name_or_file,
}

-- The absolute path that is allocated for the n-th fresh name.
abbrev pub place : Surroundings → ℕ → Text → Text
place env n extension = join (env.fs.root FileCategory.upload) (relative_of env n extension)

-- The row stored for the n-th fresh name, and the bytes on disk.
pub record IsStored (env : Surroundings) (user_id : Option ℕ) (n max_bytes : ℕ) (disk' : Disk)
    (f : StoredFile) : Type 0 where
  pub active : f.status ≡ FileStatus.active
  pub owned : f.user_id ≡ user_id
  pub uploaded : f.category ≡ FileCategory.upload
  pub placed : f.relative_path ≡ relative_of env n f.extension
  pub small : f.size_bytes ≤ max_bytes
  pub on_disk :
      (content : Bytes) × (lookup (place env n f.extension) disk' ≡ some content)
      × (length content ≡ f.size_bytes)

abbrev pub Outcome :
    Surroundings → Option ℕ → ℕ → ℕ → Disk → Result AppException StoredFile → Type 0
Outcome env user_id n max_bytes disk' (ok f) = IsStored env user_id n max_bytes disk' f
Outcome env user_id n max_bytes disk' (err e) = Unit

-- The disk has changed at most at the places of the n-th fresh name, and where nothing was stored
-- and the database accepts every row, there is no file at the changed place.
abbrev pub Changes : Surroundings → ℕ → Disk → Disk → Result AppException StoredFile → Type 0
Changes env n disk disk' (ok f) =
    (p : Text) → place env n f.extension ≢ p → lookup p disk' ≡ lookup p disk
Changes env n disk disk' (err e) =
    ((f : StoredFile) → env.accepts f ≡ true)
    → (p : Text)
    → (lookup p disk' ≡ lookup p disk)
      ⊎ ((extension : Text) × (place env n extension ≡ p) × (lookup p disk' ≡ none))

module _ (env : Surroundings) (user_id : Option ℕ) (n max_bytes : ℕ) where
  accepted-Outcome :
      (disk' : Disk) (f : StoredFile) (b : Bool)
      → IsStored env user_id n max_bytes disk' f
      → Outcome env user_id n max_bytes disk' (if b then ok f else err database_error)
  accepted-Outcome disk' f true h = h
  accepted-Outcome disk' f false h = tt

  accepted-Changes :
      (disk disk' : Disk) (f : StoredFile)
      → ((p : Text) → place env n f.extension ≢ p → lookup p disk' ≡ lookup p disk)
      → Changes env n disk disk' (if env.accepts f then ok f else err database_error)
  accepted-Changes disk disk' f h = elim (Bool-cases (env.accepts f)) [
    | inl accepts ↦ rw accepts h
    | inr refuses ↦ rw refuses (λ all p. let accepts = all f in cc)
  ]

  recorded-steps :
      (original_name : Text) (spec : FileTypeSpec) (total_is_binding : Bool) (disk disk' : Disk)
      (result : Result AppException (ℕ × Text))
      → IsWritten env.fs (place env n spec.extension) max_bytes disk' result
      → ((p : Text) → place env n spec.extension ≢ p → lookup p disk' ≡ lookup p disk)
      → Outcome env user_id n max_bytes disk'
          (recorded env user_id n original_name spec total_is_binding (result, disk')).0
        × Changes env n disk disk'
            (recorded env user_id n original_name spec total_is_binding (result, disk')).0
  recorded-steps original_name spec total_is_binding disk disk' (err e) gone others = (
    tt,
    λ all p. elim (Bool-cases (text_eq (place env n spec.extension) p)) [
      | inl same ↦
          let q = text_eq→eq (place env n spec.extension) p same in
          inr (spec.extension, q, rw (← q) gone)
      | inr other ↦ inl (others p (λ q. let t = text_eq_refl p in let t' = rw q at other in cc))
    ],
  )
  recorded-steps original_name spec total_is_binding disk disk' (ok (size, checksum))
        (content, found, counted, small, _) others =
      (
        accepted-Outcome disk' (new_file env user_id n original_name spec size checksum)
            (env.accepts (new_file env user_id n original_name spec size checksum))
            (record {
              active = refl;
              owned = refl;
              uploaded = refl;
              placed = refl;
              small = small;
              on_disk = (content, found, counted);
            }),
        accepted-Changes disk disk' (new_file env user_id n original_name spec size checksum)
            others,
      )

  recorded-disk :
      (original_name : Text) (spec : FileTypeSpec) (total_is_binding : Bool)
      (w : Result AppException (ℕ × Text) × Disk)
      → (recorded env user_id n original_name spec total_is_binding w).1 ≡ w.1
  recorded-disk original_name spec total_is_binding (ok _, disk) = refl
  recorded-disk original_name spec total_is_binding (err _, disk) = refl

  typed-steps :
      (original_name : Text) (upload : UploadFile) (total_is_binding : Bool) (disk : Disk)
      (checked : Result AppException FileTypeSpec)
      → let stored =
          typed env user_id n original_name upload max_bytes total_is_binding disk checked in
        Outcome env user_id n max_bytes stored.1 stored.0 × Changes env n disk stored.1 stored.0
  typed-steps original_name upload total_is_binding disk (err e) = (tt, λ all p. inl refl)
  typed-steps original_name upload total_is_binding disk (ok spec) =
      let w =
        write_stream env.fs upload.reads (place env n spec.extension) max_bytes upload.head disk in
      let (written, others) =
        write_stream-bounded env.fs upload.reads (place env n spec.extension) max_bytes upload.head
          disk w.1 w.0 refl in
      rw (recorded-disk original_name spec total_is_binding w)
        (recorded-steps original_name spec total_is_binding disk w.1 w.0 written others)

  pub store_one-steps :
      (allowed : Option (List Text)) (total_is_binding : Bool) (upload : UploadFile) (disk : Disk)
      → let stored = store_one env allowed user_id n max_bytes total_is_binding upload disk in
        Outcome env user_id n max_bytes stored.1 stored.0 × Changes env n disk stored.1 stored.0
  unfolding store_one
  store_one-steps allowed total_is_binding upload disk =
      typed-steps (sanitize_filename env.nfkc (codes "file") (name_or_file upload.filename)) upload
        total_is_binding disk
        (validate_file_type
          (sanitize_filename env.nfkc (codes "file") (name_or_file upload.filename)) upload.head
          allowed)
