-- ===== src/Files/Download.antt =====
-- Downloads (`DownloadService` of app/services/download.py). Links load their files as the runner's
-- inputs do. The archive itself is kept as the list of its entries.
pub mod Names
pub mod Served
use tools_backend.Base.{
  ℕ, ◌-◌, ◌/◌, ap, Bool, not, Option, none, some, List, if◌then◌else◌, Result, ok, err, raise_if,
  Text, partition, ◌>>=◌, ◌>>◌, [], codes, false, member, true, ◌++◌, ◌∷◌, length, suc, zero,
}
use tools_backend.Base.Digits.{str}
use tools_backend.Constants.{JobStatus, is_output}
use tools_backend.Exceptions.{
  AppException, file_not_found_app_error, file_expired_error, storage_error,
  job_not_completed_error,
}
use tools_backend.Filenames.Paths.{rpartition}
use tools_backend.Jobs.Rows.{
  StoredFile, ProcessingJob, JobFile, Db, links_of, sort_links, find_file,
}
use tools_backend.Jobs.Repository.{get_active, is_past}
use tools_backend.Files.Disk.{Bytes, Disk, FileSystem, lookup, resolve}

-- The response: one file under its original name, or an archive with its download name.
pub data FileResponse : Type 0 where
  file_response : Text → Text → Text → FileResponse
  zip_response : List (Text × Text) → Text → FileResponse

abbrev pub is_there : Option Bytes → Bool
is_there none = false
is_there (some content) = true

-- `path.is_file()`
abbrev pub is_file : Text → Disk → Bool
is_file path disk = is_there (lookup path disk)

abbrev resolved : Option Text → Result AppException Text
resolved none = err storage_error
resolved (some path) = ok path

abbrev pub found_or_missing : Option StoredFile → Result AppException StoredFile
found_or_missing none = err file_not_found_app_error
found_or_missing (some f) = ok f

-- `f"{stem} ({counter}).{suffix}"`, or without a dot `f"{original_name} ({counter})"`
abbrev numbered_parts : Text → ℕ → Option (Text × Text) → Text
numbered_parts original counter none = original ++ (codes " (" ++ (str counter ++ codes ")"))
numbered_parts original counter (some (stem, suffix)) =
    stem ++ (codes " (" ++ (str counter ++ (codes ")." ++ suffix)))

pub numbered : Text → ℕ → Text
unfolding rpartition str
numbered original counter = numbered_parts original counter (rpartition b'.' original)

-- The `while` loop that looks for an unused name. The fuel is one more than the number
-- of names in use.
pub unused_name : ℕ → List Text → Text → Text → ℕ → Text
unfolding numbered member
unused_name zero used original arcname counter = arcname
unused_name (suc fuel) used original arcname counter =
    let next = unused_name fuel used original (numbered original counter) (suc counter) in
    if member arcname used then next else arcname

-- The entries of the archive, given the names in use; the newest stands first.
unfoldable pub dedupe : List Text → List (Text × Text) → List (Text × Text)
unfolding unused_name
dedupe used [] = []
dedupe used ((path, original) ∷ entries) =
    let arcname = unused_name (suc (length used)) used original original 1 in
    (path, arcname) ∷ dedupe (arcname ∷ used) entries

-- `archive_download_name`; `known` tells the tools' slugs, `stamp` is the date
abbrev prefix_of : (Text → Bool) → Option Text → Text
prefix_of known none = codes "converted"
prefix_of known (some []) = codes "converted"
prefix_of known (some (c ∷ tool)) = if known (c ∷ tool) then c ∷ tool else codes "converted"

unfoldable pub archive_download_name : (Text → Bool) → Text → Option Text → ℕ → Text
unfolding str
archive_download_name known stamp tool count =
    prefix_of known tool
    ++ (codes "-" ++ (str count ++ (codes "-files-" ++ (stamp ++ codes ".zip"))))

module _ (fs : FileSystem) (now : ℕ) (db : Db) (disk : Disk) where
  unfoldable pub get_downloadable : ℕ → Option ℕ → Result AppException (StoredFile × Text)
  unfolding get_active resolve
  get_downloadable file_id user_id = do
    f ← found_or_missing (get_active db.files file_id user_id)
    raise_if (is_past f.expires_at now) file_expired_error
    path ← resolved (resolve fs f.category f.relative_path)
    raise_if (not (is_file path disk)) file_expired_error
    ok (f, path)

  unfoldable pub build_response : ℕ → Option ℕ → Result AppException FileResponse
  unfolding get_downloadable
  build_response file_id user_id = do
    (f, path) ← get_downloadable file_id user_id
    ok (file_response path f.media_type f.original_name)

  -- The loop of `build_archive_response`.
  unfoldable pub archive_entries : List ℕ → Option ℕ → Result AppException (List (Text × Text))
  unfolding get_downloadable
  archive_entries [] user_id = ok []
  archive_entries (file_id ∷ file_ids) user_id = do
    (f, path) ← get_downloadable file_id user_id
    entries ← archive_entries file_ids user_id
    ok ((path, f.original_name) ∷ entries)

  abbrev zipped : Text → List (Text × Text) → FileResponse
  zipped download_name entries = zip_response (dedupe [] entries) download_name

  unfoldable pub build_archive_response :
      List ℕ → Option ℕ → Text → Result AppException FileResponse
  unfolding build_response archive_entries dedupe
  build_archive_response [] user_id download_name = ok (zipped download_name [])
  build_archive_response (file_id ∷ []) user_id download_name = build_response file_id user_id
  build_archive_response (a ∷ b ∷ file_ids) user_id download_name = do
    entries ← archive_entries (a ∷ b ∷ file_ids) user_id
    ok (zipped download_name entries)

  -- The loop of `build_job_response`; a foreign key makes every link find its file.
  unfoldable pub job_entries : List JobFile → Result AppException (List (Text × Text))
  unfolding resolve
  job_entries [] = ok []
  job_entries (link ∷ links) = do
    f ← found_or_missing (find_file link.file_id db.files)
    path ← resolved (resolve fs f.category f.relative_path)
    raise_if (not (is_file path disk)) file_expired_error
    entries ← job_entries links
    ok ((path, f.original_name) ∷ entries)

  abbrev is_completed : JobStatus → Bool
  is_completed JobStatus.completed = true
  is_completed JobStatus.pending = false
  is_completed JobStatus.queued = false
  is_completed JobStatus.processing = false
  is_completed JobStatus.failed = false
  is_completed JobStatus.cancelled = false
  is_completed JobStatus.expired = false

  -- By the number of output links.
  unfoldable pub respond : (ℕ → Text) → Option ℕ → List JobFile → Result AppException FileResponse
  unfolding build_response job_entries dedupe
  respond name user_id [] = err job_not_completed_error
  respond name user_id (link ∷ []) = build_response link.file_id user_id
  respond name user_id (a ∷ b ∷ links) = do
    entries ← job_entries (a ∷ b ∷ links)
    ok (zipped (name (length (a ∷ b ∷ links))) entries)

  unfoldable pub build_job_response :
      (Text → Bool) → Text → ProcessingJob → Result AppException FileResponse
  unfolding respond archive_download_name
  build_job_response known stamp job = do
    raise_if (not (is_completed job.status)) job_not_completed_error
    respond (archive_download_name known stamp (some job.tool)) job.user_id
        (sort_links (links_of job.id is_output db.links))
