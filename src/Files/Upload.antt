-- ===== src/Files/Upload.antt =====
-- Uploads (`UploadService` of app/services/upload.py). Fresh names, the clock and the answers of the
-- database are parameters.
pub mod Stored
pub mod Budget
pub mod Atomic
use tools_backend.Base.{
  ℕ, suc, ◌-◌, min, Bool, Option, none, some, List, [], ◌∷◌, ◌++◌, ltb, if◌then◌else◌, length,
  Result, ok, err, ◌>>=◌, Text, codes,
}
use tools_backend.Constants.{FileStatus, FileCategory}
use tools_backend.Exceptions.{
  AppException, SizeLimit, per_file, combined, file_too_large_error, database_error,
}
use tools_backend.Plans.{PlanLimits, limits_for_plan, max_file_size_bytes, max_total_size_bytes}
use tools_backend.Filenames.{sanitize_filename, generate_stored_name}
use tools_backend.Jobs.Rows.{StoredFile}
use tools_backend.Files.Disk.{Bytes, Disk, FileSystem, Reads, join, delete, write_stream}
use tools_backend.Files.Types.{FileTypeSpec, validate_file_count, validate_file_type}

-- An upload: its name, the bytes that the first `read(SNIFF_SIZE)` returns, and the later reads.
pub record UploadFile : Type 0 where
  pub filename : Option Text
  pub head : Bytes
  pub reads : Reads

-- What an upload uses of its surroundings. `accepts` is false for a row whose flush raises, and
-- `commits` for a commit that raises. The n-th fresh name has the hexadecimal digits `hex n`;
-- `today` is the date as `%Y/%m/%d`.
pub record Surroundings : Type 0 where
  pub fs : FileSystem
  pub nfkc : Text → Text
  pub hex : ℕ → Text
  pub today : Text
  pub expires_at : ℕ
  pub max_files_per_upload : ℕ
  pub accepts : StoredFile → Bool
  pub commits : Bool

-- `Path(f"{today:%Y/%m/%d}") / stored_name`
abbrev pub relative_of : Surroundings → ℕ → Text → Text
relative_of env n extension = env.today ++ b'/' ∷ generate_stored_name (env.hex n) extension

-- `upload.filename or "file"`
abbrev pub name_or_file : Option Text → Text
name_or_file none = codes "file"
name_or_file (some []) = codes "file"
name_or_file (some (c ∷ name)) = c ∷ name

abbrev pub new_file : Surroundings → Option ℕ → ℕ → Text → FileTypeSpec → ℕ → Text → StoredFile
new_file env user_id n original_name spec size checksum = record {
  id = n;
  original_name = original_name;
  stored_name = generate_stored_name (env.hex n) spec.extension;
  category = FileCategory.upload;
  relative_path = relative_of env n spec.extension;
  media_type = spec.media_type;
  extension = spec.extension;
  size_bytes = size;
  checksum_sha256 = some checksum;
  status = FileStatus.active;
  user_id = user_id;
  expires_at = some env.expires_at;
}

-- The size errors are raised again with the limit that was met.
abbrev pub blamed : Bool → AppException → AppException
blamed total_is_binding (file_too_large_error _) =
    file_too_large_error (if total_is_binding then combined else per_file)
blamed total_is_binding e = e

-- Behind `write_stream`: the row is added and flushed. A flush that raises leaves the bytes on disk.
abbrev pub recorded :
    Surroundings
    → Option ℕ
    → ℕ
    → Text
    → FileTypeSpec
    → Bool
    → Result AppException (ℕ × Text) × Disk
    → Result AppException StoredFile × Disk
recorded env user_id n original_name spec total_is_binding (err e, disk) =
    (err (blamed total_is_binding e), disk)
recorded env user_id n original_name spec total_is_binding (ok (size, checksum), disk) =
    let file = new_file env user_id n original_name spec size checksum in
    (if env.accepts file then ok file else err database_error, disk)

abbrev pub typed :
    Surroundings
    → Option ℕ
    → ℕ
    → Text
    → UploadFile
    → ℕ
    → Bool
    → Disk
    → Result AppException FileTypeSpec
    → Result AppException StoredFile × Disk
typed env user_id n original_name upload max_bytes total_is_binding disk (err e) = (err e, disk)
typed env user_id n original_name upload max_bytes total_is_binding disk (ok spec) =
    recorded env user_id n original_name spec total_is_binding (
      write_stream env.fs upload.reads
        (join (env.fs.root FileCategory.upload) (relative_of env n spec.extension)) max_bytes
        upload.head disk)

-- `_store_one`
unfoldable pub store_one :
    Surroundings
    → Option (List Text)
    → Option ℕ
    → ℕ
    → ℕ
    → Bool
    → UploadFile
    → Disk
    → Result AppException StoredFile × Disk
unfolding sanitize_filename
store_one env allowed_extensions user_id n max_bytes total_is_binding upload disk =
    let original_name = sanitize_filename env.nfkc (codes "file") (name_or_file upload.filename) in
    typed env user_id n original_name upload max_bytes total_is_binding disk
      (validate_file_type original_name upload.head allowed_extensions)

-- The rows stored so far come first in the list of what has been written.
abbrev pub with_file :
    (ℕ → Disk → Result AppException (List StoredFile) × Disk × List StoredFile)
    → ℕ
    → Result AppException StoredFile × Disk
    → Result AppException (List StoredFile) × Disk × List StoredFile
with_file go remaining (err e, disk) = (err e, disk, [])
with_file go remaining (ok file, disk) =
    let (result, disk', written) = go (remaining - file.size_bytes) disk in
    (result >>= (λ files. ok (file ∷ files)), disk', file ∷ written)

-- The loop of `upload_files`: the result, the disk, and the files written (`written_paths`).
unfoldable pub store_all :
    Surroundings
    → Option (List Text)
    → Option ℕ
    → PlanLimits
    → ℕ
    → ℕ
    → List UploadFile
    → Disk
    → Result AppException (List StoredFile) × Disk × List StoredFile
unfolding store_one
store_all env allowed user_id limits n remaining [] disk = (ok [], disk, [])
store_all env allowed user_id limits n remaining (upload ∷ uploads) disk =
    with_file (λ left d. store_all env allowed user_id limits (suc n) left uploads d) remaining
      (store_one env allowed user_id n (min (max_file_size_bytes limits) remaining)
        (ltb remaining (max_file_size_bytes limits)) upload disk)

abbrev pub delete_all : FileSystem → List StoredFile → Disk → Disk
delete_all fs [] disk = disk
delete_all fs (f ∷ files) disk = delete_all fs files (delete fs f.category f.relative_path disk).1

abbrev pub rolled_back :
    Surroundings
    → Result AppException (List StoredFile) × Disk × List StoredFile
    → Result AppException (List StoredFile) × Disk
rolled_back env (err e, disk, written) = (err e, delete_all env.fs written disk)
rolled_back env (ok files, disk, written) =
    if env.commits then (ok files, disk) else (err database_error, delete_all env.fs written disk)

abbrev pub counted :
    Result AppException (Unit {0})
    → Result AppException (List StoredFile) × Disk
    → Disk
    → Result AppException (List StoredFile) × Disk
counted (err e) stored disk = (err e, disk)
counted (ok _) stored disk = stored

-- `upload_files`: the rows of the batch, from the id `n` on, and the disk behind it.
unfoldable pub upload_files :
    Surroundings
    → Option (List Text)
    → Option ℕ
    → Option Text
    → ℕ
    → List UploadFile
    → Disk
    → Result AppException (List StoredFile) × Disk
unfolding store_all
upload_files env allowed_extensions user_id plan n uploads disk =
    let limits = limits_for_plan plan in
    counted (validate_file_count env.max_files_per_upload (length uploads) (some limits.max_files))
      (rolled_back env (
        store_all env allowed_extensions user_id limits n (max_total_size_bytes limits) uploads
          disk))
      disk
