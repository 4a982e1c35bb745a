-- ===== src/Files/Cleanup.antt =====
-- The hourly cleanup (app/tasks/cleanup.py). The purge of temporary workspaces is left out.
pub mod Swept
use tools_backend.Base.{ℕ, suc, ◌-◌, ◌/◌, ap, List, [], ◌∷◌, if◌then◌else◌}
use tools_backend.Constants.{FileStatus, JobStatus}
use tools_backend.Jobs.Rows.{StoredFile, ProcessingJob}
use tools_backend.Jobs.Repository.{file_is_expired, job_is_expired}
use tools_backend.Files.Disk.{Disk, FileSystem, delete}

abbrev pub expired_file : StoredFile → StoredFile
expired_file f = record f { status = FileStatus.expired }

abbrev pub expired_job : ProcessingJob → ProcessingJob
expired_job j = record j { status = JobStatus.expired }

-- The loop over `file_repo.list_expired()`: the rows, the disk and the number of files removed.
unfoldable pub expire_files : FileSystem → ℕ → List StoredFile → Disk → List StoredFile × Disk × ℕ
expire_files fs now [] disk = ([], disk, 0)
expire_files fs now (f ∷ files) disk =
    let disk' =
      if file_is_expired now f then (delete fs f.category f.relative_path disk).1 else disk in
    let (kept, d, n) = expire_files fs now files disk' in
    if file_is_expired now f then (expired_file f ∷ kept, d, suc n) else (f ∷ kept, d, n)

-- The loop over `job_repo.list_expired()`.
unfoldable pub expire_jobs : ℕ → List ProcessingJob → List ProcessingJob × ℕ
expire_jobs now [] = ([], 0)
expire_jobs now (j ∷ jobs) =
    let (kept, n) = expire_jobs now jobs in
    if job_is_expired now j then (expired_job j ∷ kept, suc n) else (j ∷ kept, n)

pub record Cleaned : Type 0 where
  pub files : List StoredFile
  pub jobs : List ProcessingJob
  pub disk : Disk
  pub files_removed : ℕ
  pub jobs_expired : ℕ

-- `cleanup_expired`
unfoldable pub cleanup_expired :
    FileSystem → ℕ → List StoredFile → List ProcessingJob → Disk → Cleaned
unfolding expire_files expire_jobs
cleanup_expired fs now files jobs disk =
    let (files', disk', removed) = expire_files fs now files disk in
    let (jobs', expired) = expire_jobs now jobs in
    record {
      files = files';
      jobs = jobs';
      disk = disk';
      files_removed = removed;
      jobs_expired = expired;
    }
