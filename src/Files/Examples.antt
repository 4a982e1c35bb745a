-- ===== src/Files/Examples.antt =====
-- A small storage tree, with uploads, downloads and a cleanup.
use tools_backend.Base.{
  ◌≤◌, ◌≡◌, refl, true, none, some, List, [], ◌∷◌, ◌++◌, map, length, replicate, All, Text, codes,
}
use tools_backend.Constants.{FileStatus, FileCategory}
use tools_backend.Exceptions.{file_corrupted_error}
use tools_backend.Plans.{limits_for_plan, max_total_size_bytes}
use tools_backend.Jobs.Rows.{StoredFile, Db}
use tools_backend.Admin.Files.{purge_expired_files}
use tools_backend.Admin.Files.Purged.{AreMarked, purge_expired_files-expire_files}
use tools_backend.Files.Cleanup.{expire_files}
use tools_backend.Files.Disk.{Disk, FileSystem, lookup, write_stream, resolve}
use tools_backend.Files.Types.{validate_file_count, validate_file_type}
use tools_backend.Files.Upload.{Surroundings, UploadFile, upload_files}
use tools_backend.Files.Upload.Budget.{IsAccepted, size_of_all, upload_files-within_limits}
use tools_backend.Files.Upload.Atomic.{HasFreshNames, upload_files-atomic}
use tools_backend.Files.Download.{dedupe, get_downloadable}
use tools_backend.Files.Download.Names.{AreNew, dedupe-AreNew}
use tools_backend.Files.Download.Served.{IsServable, get_downloadable-IsServable}

abbrev sample_root : FileCategory → Text
sample_root FileCategory.upload = codes "/u"
sample_root FileCategory.processed = codes "/p"
sample_root FileCategory.thumbnail = codes "/t"

abbrev fs : FileSystem
fs = record { root = sample_root; canonical = λ p. p; digest = λ bytes. bytes }

abbrev old_file : Disk
old_file = (codes "/p/old", 1 ∷ []) ∷ []

-- The n-th fresh name has n digits.
abbrev env : Surroundings
env = record {
  fs = fs;
  nfkc = λ t. t;
  hex = λ n. replicate n b'a';
  today = codes "2026/01/01";
  expires_at = 500;
  max_files_per_upload = 20;
  accepts = λ f. true;
  commits = true;
}

abbrev pdf_upload : UploadFile
pdf_upload = record {
  filename = some (codes "a.pdf");
  head = codes "%PDF-1";
  reads = some (1 ∷ 2 ∷ []) ∷ [];
}

abbrev bad_upload : UploadFile
bad_upload = record { filename = some (codes "b.pdf"); head = codes "hello"; reads = [] }

abbrev stored_file : StoredFile
stored_file = record {
  id = 1;
  original_name = codes "a.pdf";
  stored_name = codes "a.pdf";
  category = FileCategory.upload;
  relative_path = codes "2026/01/01/a.pdf";
  media_type = codes "application/pdf";
  extension = codes "pdf";
  size_bytes = 8;
  checksum_sha256 = some (codes "%PDF-1" ++ 1 ∷ 2 ∷ []);
  status = FileStatus.active;
  user_id = some 7;
  expires_at = some 500;
}

upload_files-within_limits_example :
    (length (stored_file ∷ []) ≡ length (pdf_upload ∷ []))
    × All (IsAccepted (limits_for_plan none) (some 7)) (stored_file ∷ [])
    × (size_of_all (stored_file ∷ []) ≤ max_total_size_bytes (limits_for_plan none))
unfolding upload_files tools_backend.Files.Types.validate_file_count limits_for_plan
    tools_backend.Files.Types.validate_file_type write_stream
upload_files-within_limits_example =
    upload_files-within_limits env none (some 7) none 1 (pdf_upload ∷ []) old_file
      (stored_file ∷ []) refl

fresh_names : HasFreshNames env old_file
unfolding resolve
fresh_names = record { unused = λ n extension. refl; resolved = λ n extension. refl }

upload_files-atomic_example :
    lookup
      (codes "/u/2026/01/01/a.pdf")
      (upload_files env none (some 7) none 1 (pdf_upload ∷ bad_upload ∷ []) old_file).1
    ≡ lookup (codes "/u/2026/01/01/a.pdf") old_file
unfolding upload_files validate_file_count limits_for_plan validate_file_type write_stream
upload_files-atomic_example =
    upload_files-atomic env none (some 7) none 1 (pdf_upload ∷ bad_upload ∷ []) old_file
      file_corrupted_error fresh_names (λ f. refl) refl (codes "/u/2026/01/01/a.pdf")

abbrev three_entries : List (Text × Text)
three_entries =
    (codes "/p/1", codes "a.pdf") ∷ (codes "/p/2", codes "a.pdf") ∷ (codes "/p/3", codes "b") ∷ []

dedupe-AreNew_example :
    AreNew [] (dedupe [] three_entries)
    × (map (λ (e : Text × Text). e.0) (dedupe [] three_entries)
        ≡ map (λ (e : Text × Text). e.0) three_entries)
dedupe-AreNew_example = dedupe-AreNew [] three_entries

abbrev served_disk : Disk
served_disk = (codes "/u/2026/01/01/a.pdf", 1 ∷ []) ∷ []

abbrev served_db : Db
served_db = record { jobs = []; files = stored_file ∷ []; links = []; next_id = 2 }

get_downloadable-IsServable_example :
    IsServable fs 100 served_disk 1 (some 7) stored_file (codes "/u/2026/01/01/a.pdf")
unfolding get_downloadable
get_downloadable-IsServable_example =
    get_downloadable-IsServable fs 100 served_db served_disk 1 (some 7) stored_file
      (codes "/u/2026/01/01/a.pdf") refl

purge_expired_files-expire_files_example :
    AreMarked 900 (stored_file ∷ []) (purge_expired_files 900 (stored_file ∷ [])).0
    × (expire_files fs 900 (purge_expired_files 900 (stored_file ∷ [])).0 served_disk
        ≡ ((purge_expired_files 900 (stored_file ∷ [])).0, served_disk, 0))
purge_expired_files-expire_files_example =
    purge_expired_files-expire_files fs 900 (stored_file ∷ []) served_disk
