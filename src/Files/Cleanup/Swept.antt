-- ===== src/Files/Cleanup/Swept.antt =====
-- What the cleanup does (app/tasks/cleanup.py).
use tools_backend.Base.{
  ℕ, ◌≡◌, refl, inl, inr, List, [], ◌∷◌, map, if◌then◌else◌, Bool-cases, length, keep_if,
}
use tools_backend.Jobs.Rows.{StoredFile, ProcessingJob}
use tools_backend.Jobs.Repository.{
  file_is_expired, job_is_expired, list_expired_files, list_expired_jobs,
}
use tools_backend.Files.Disk.{Disk, FileSystem, delete}
use tools_backend.Files.Cleanup.{
  expired_file, expired_job, expire_files, expire_jobs, cleanup_expired,
}

-- A row behind the cleanup.
abbrev pub swept_file : ℕ → StoredFile → StoredFile
swept_file now f = if file_is_expired now f then expired_file f else f

abbrev pub swept_job : ℕ → ProcessingJob → ProcessingJob
swept_job now j = if job_is_expired now j then expired_job j else j

expire_files-marks :
    (fs : FileSystem) (now : ℕ) (files : List StoredFile) (disk : Disk)
    → ((expire_files fs now files disk).0 ≡ map (swept_file now) files)
      × ((expire_files fs now files disk).2 ≡ length (keep_if (file_is_expired now) files))
unfolding expire_files
expire_files-marks fs now [] disk = (refl, refl)
expire_files-marks fs now (f ∷ files) disk = elim (Bool-cases (file_is_expired now f)) [
  | inl past ↦
      let (rows, count) =
        expire_files-marks fs now files (delete fs f.category f.relative_path disk).1 in
      rw past (rw rows, rw count)
  | inr current ↦
      let (rows, count) = expire_files-marks fs now files disk in rw current (rw rows, rw count)
]

expire_jobs-marks :
    (now : ℕ) (jobs : List ProcessingJob)
    → ((expire_jobs now jobs).0 ≡ map (swept_job now) jobs)
      × ((expire_jobs now jobs).1 ≡ length (keep_if (job_is_expired now) jobs))
unfolding expire_jobs
expire_jobs-marks now [] = (refl, refl)
expire_jobs-marks now (j ∷ jobs) =
    let (rows, count) = expire_jobs-marks now jobs in
    elim (Bool-cases (job_is_expired now j)) [
      | inl past ↦ rw past (rw rows, rw count)
      | inr current ↦ rw current (rw rows, rw count)
    ]

-- The cleanup marks EXPIRED exactly the rows that are due (active files, and finished jobs, behind
-- their time), leaves every other row as it was, and reports their numbers.
pub cleanup_expired-marks :
    (fs : FileSystem) (now : ℕ) (files : List StoredFile) (jobs : List ProcessingJob) (disk : Disk)
    → ((cleanup_expired fs now files jobs disk).files ≡ map (swept_file now) files)
      × ((cleanup_expired fs now files jobs disk).jobs ≡ map (swept_job now) jobs)
      × ((cleanup_expired fs now files jobs disk).files_removed
          ≡ length (list_expired_files now files))
      × ((cleanup_expired fs now files jobs disk).jobs_expired
          ≡ length (list_expired_jobs now jobs))
unfolding cleanup_expired list_expired_files list_expired_jobs
cleanup_expired-marks fs now files jobs disk =
    let (rows, count) = expire_files-marks fs now files disk in
    let (rows', count') = expire_jobs-marks now jobs in (rows, rows', count, count')

expire_files-again :
    (fs : FileSystem) (now : ℕ) (files : List StoredFile) (disk : Disk)
    → expire_files fs now (map (swept_file now) files) disk ≡ (map (swept_file now) files, disk, 0)
unfolding expire_files
expire_files-again fs now [] disk = refl
expire_files-again fs now (f ∷ files) disk = elim (Bool-cases (file_is_expired now f)) [
  | inl past ↦ rw (past, expire_files-again fs now files disk)
  | inr current ↦ rw (current, current, expire_files-again fs now files disk)
]

expire_jobs-again :
    (now : ℕ) (jobs : List ProcessingJob)
    → expire_jobs now (map (swept_job now) jobs) ≡ (map (swept_job now) jobs, 0)
unfolding expire_jobs
expire_jobs-again now [] = refl
expire_jobs-again now (j ∷ jobs) = elim (Bool-cases (job_is_expired now j)) [
  | inl past ↦ rw (past, expire_jobs-again now jobs)
  | inr current ↦ rw (current, current, expire_jobs-again now jobs)
]

-- A cleanup right behind another finds nothing to do: rows and disk stay as they are.
pub cleanup_expired-idempotent :
    (fs : FileSystem) (now : ℕ) (files : List StoredFile) (jobs : List ProcessingJob) (disk : Disk)
    → let c = cleanup_expired fs now files jobs disk in
      cleanup_expired fs now c.files c.jobs c.disk
      ≡ record c { files_removed = 0; jobs_expired = 0 }
unfolding cleanup_expired
cleanup_expired-idempotent fs now files jobs disk =
    let (rows, _) = expire_files-marks fs now files disk in
    let (rows', _) = expire_jobs-marks now jobs in
    rw (
      rows,
      rows',
      expire_files-again fs now files (expire_files fs now files disk).1,
      expire_jobs-again now jobs,
    )
