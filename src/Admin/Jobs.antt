-- ===== src/Admin/Jobs.antt =====
-- The jobs of the admin panel (`cancel_job`, `retry_job`, `job_stats`, `_job_file_name` of
-- app/services/admin.py).
pub mod Cancelled
use tools_backend.Base.{
  ℕ, ◌-◌, ◌/◌, min, ap, Bool, true, false, Option, none, some, List, [], ◌∷◌, if◌then◌else◌,
  keep_if, Result, ok, err, raise_if, Text, ◌>>=◌, ◌>>◌,
}
use tools_backend.Constants.{JobStatus, is_terminal, JobFileRole, is_input}
use tools_backend.Exceptions.{AppException}
use tools_backend.Jobs.Rows.{StoredFile, ProcessingJob, JobFile, find_job, put_job, find_file}
use tools_backend.Admin.Users.{require, count_if}

abbrev pub cancelled : ℕ → ProcessingJob → ProcessingJob
cancelled now job = record job { status = JobStatus.cancelled; finished_at = some now }

unfoldable pub cancel_job :
    ℕ → List ProcessingJob → ℕ → Result AppException (List ProcessingJob × ProcessingJob)
cancel_job now jobs job_id = do
  job ← require (find_job job_id jobs)
  live ← raise_if (is_terminal job.status) AppException.bad_request_error
  ok (put_job (cancelled now job) jobs, cancelled now job)

abbrev pub requeued : ProcessingJob → ProcessingJob
requeued job = record job {
  status = JobStatus.queued;
  progress = 0;
  error_code = none;
  error_message = none;
  finished_at = none;
}

unfoldable pub retry_job :
    List ProcessingJob → ℕ → Result AppException (List ProcessingJob × ProcessingJob)
retry_job jobs job_id = do
  job ← require (find_job job_id jobs)
  ok (put_job (requeued job) jobs, requeued job)

abbrev pub is_processing : JobStatus → Bool
is_processing JobStatus.processing = true
is_processing _ = false

-- QUEUED and PENDING
abbrev pub is_waiting : JobStatus → Bool
is_waiting JobStatus.queued = true
is_waiting JobStatus.pending = true
is_waiting _ = false

abbrev pub is_completed : JobStatus → Bool
is_completed JobStatus.completed = true
is_completed _ = false

abbrev pub is_failed : JobStatus → Bool
is_failed JobStatus.failed = true
is_failed _ = false

pub record JobStats : Type 0 where
  pub processing : ℕ
  pub queued : ℕ
  pub completed : ℕ
  pub failed : ℕ

unfoldable pub job_stats : List ProcessingJob → JobStats
job_stats jobs = record {
  processing = count_if (λ j. is_processing j.status) jobs;
  queued = count_if (λ j. is_waiting j.status) jobs;
  completed = count_if (λ j. is_completed j.status) jobs;
  failed = count_if (λ j. is_failed j.status) jobs;
}

-- `inputs or links`
abbrev pub chosen_links : List JobFile → List JobFile → List JobFile
chosen_links [] links = links
chosen_links (l ∷ inputs) links = l ∷ inputs

abbrev pub name_of_file : Option StoredFile → Option Text
name_of_file none = none
name_of_file (some f) = some f.original_name

abbrev pub name_of_first : List StoredFile → List JobFile → Option Text
name_of_first files [] = none
name_of_first files (l ∷ links) = name_of_file (find_file l.file_id files)

-- `_job_file_name`, from the links of the job
unfoldable pub job_file_name : List StoredFile → List JobFile → Option Text
job_file_name files links =
    name_of_first files (chosen_links (keep_if (λ l. is_input l.role) links) links)
