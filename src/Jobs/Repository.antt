-- ===== src/Jobs/Repository.antt =====
-- The repositories' methods (app/repositories/job.py, app/repositories/file.py).
use tools_backend.Base.{
  ℕ, Bool, true, false, ◌&&◌, ◌||◌, Option, none, some, List, [], ◌∷◌, ltb, leb, ◌==◌,
  if◌then◌else◌, take, keep_if, Text,
}
use tools_backend.Base.Integers.{ℤ, pos, negsuc}
use tools_backend.Constants.{JobStatus, ErrorCode, file_status_is_active}
use tools_backend.Jobs.Rows.{StoredFile, ProcessingJob}

-- `user_id IS NOT DISTINCT FROM :caller`
abbrev pub same_owner : Option ℕ → Option ℕ → Bool
same_owner none none = true
same_owner none (some _) = false
same_owner (some _) none = false
same_owner (some a) (some b) = a == b

-- `FileRepository.get_active`
unfoldable pub get_active : List StoredFile → ℕ → Option ℕ → Option StoredFile
get_active [] file_id user_id = none
get_active (f ∷ fs) file_id user_id =
    let rest = get_active fs file_id user_id in
    if (f.id == file_id) && file_status_is_active f.status && same_owner f.user_id user_id
    then some f
    else rest

-- `JobRepository.get_with_files`, the row alone: ownership is checked unless any owner will do.
unfoldable pub get_with_files : List ProcessingJob → ℕ → Option ℕ → Bool → Option ProcessingJob
get_with_files [] job_id user_id any_owner = none
get_with_files (j ∷ js) job_id user_id any_owner =
    let rest = get_with_files js job_id user_id any_owner in
    if (j.id == job_id) && (any_owner || same_owner j.user_id user_id) then some j else rest

-- `max(0, min(100, progress))`
abbrev pub clamp : ℤ → ℕ
clamp (pos n) = if leb n 100 then n else 100
clamp (negsuc _) = 0

unfoldable pub set_progress : ProcessingJob → ℤ → ProcessingJob
set_progress job progress = record job { progress = clamp progress }

unfoldable pub mark_processing : ProcessingJob → ℕ → ProcessingJob
mark_processing job now = record job {
  status = JobStatus.processing;
  started_at = some now;
  progress = 0;
}

unfoldable pub mark_completed : ProcessingJob → ℕ → ProcessingJob
mark_completed job now = record job {
  status = JobStatus.completed;
  progress = 100;
  finished_at = some now;
}

unfoldable pub mark_failed : ProcessingJob → ErrorCode → Text → ℕ → ProcessingJob
mark_failed job error_code error_message now = record job {
  status = JobStatus.failed;
  error_code = some error_code;
  error_message = some (take 2000 error_message);
  finished_at = some now;
}

-- `expires_at is not None and expires_at < now`
abbrev pub is_past : Option ℕ → ℕ → Bool
is_past none now = false
is_past (some t) now = ltb t now

-- COMPLETED, FAILED and CANCELLED
abbrev is_finished : JobStatus → Bool
is_finished JobStatus.completed = true
is_finished JobStatus.failed = true
is_finished JobStatus.cancelled = true
is_finished JobStatus.pending = false
is_finished JobStatus.queued = false
is_finished JobStatus.processing = false
is_finished JobStatus.expired = false

-- `SyncJobRepository.list_expired`, as the test that its query makes of each row.
abbrev pub job_is_expired : ℕ → ProcessingJob → Bool
job_is_expired now j = is_finished j.status && is_past j.expires_at now

-- `SyncFileRepository.list_expired`, as the test that its query makes of each row.
abbrev pub file_is_expired : ℕ → StoredFile → Bool
file_is_expired now f = file_status_is_active f.status && is_past f.expires_at now

unfoldable pub list_expired_jobs : ℕ → List ProcessingJob → List ProcessingJob
list_expired_jobs now jobs = keep_if (job_is_expired now) jobs

unfoldable pub list_expired_files : ℕ → List StoredFile → List StoredFile
list_expired_files now files = keep_if (file_is_expired now) files
