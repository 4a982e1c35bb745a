-- ===== src/Jobs/Runner/Finished.antt =====
-- The row of a job whose run is over, and its options (`run_tool_job` of app/tasks/base.py).
use tools_backend.Base.{
  ℕ, ◌≤◌, ◌≡◌, refl, sym, ap, ◌≢◌, ◌⊎◌, inl, inr, true, false, ◌||◌, some, List, [], ◌∷◌, arith,
  is_empty, All, Text, codes, member,
}
use tools_backend.Constants.{JobStatus, ErrorCode}
use tools_backend.Jobs.Rows.{ProcessingJob, find_job}
use tools_backend.Jobs.Repository.{mark_completed, mark_failed}
use tools_backend.Jobs.Runner.{
  Failure, Run, mark_failure, redact, processing_error, command_error, unexpected,
}

-- A finished job row.
pub record IsFinished (job : ProcessingJob) : Type 0 where
  pub ended : (job.status ≡ JobStatus.completed) ⊎ (job.status ≡ JobStatus.failed)
  pub bounded : job.progress ≤ 100
  pub full : job.status ≡ JobStatus.completed → job.progress ≡ 100
  pub explained : job.status ≡ JobStatus.failed → (code : ErrorCode) × (job.error_code ≡ some code)
  pub timed : (t : ℕ) × (job.finished_at ≡ some t)

-- Of the run behind its last commit of the status: the row is finished and saved, the other rows
-- are as they were.
pub record IsConcluded (origin : ProcessingJob) (options : List (Text × Text))
    (jobs : List ProcessingJob) (r : Run) : Type 0 where
  pub same_id : r.job.id ≡ origin.id
  pub same_options : r.job.options ≡ options
  pub finished : IsFinished r.job
  pub saved : find_job origin.id r.db.jobs ≡ some r.job
  pub others : (key : ℕ) → key ≢ origin.id → find_job key r.db.jobs ≡ find_job key jobs

mark_failed-IsFinished :
    (job : ProcessingJob) (code : ErrorCode) (message : Text) (now : ℕ)
    → job.progress ≤ 100
    → IsFinished (mark_failed job code message now)
unfolding mark_failed
mark_failed-IsFinished job code message now h = record {
  ended = inr refl;
  bounded = h;
  full = λ e. cc;
  explained = λ e. (code, refl);
  timed = (now, refl);
}

pub mark_failure-IsFinished :
    (job : ProcessingJob) (now : ℕ) (e : Failure)
    → job.progress ≤ 100
    → IsFinished (mark_failure job now e)
unfolding mark_failure
mark_failure-IsFinished job now (processing_error code message) h =
    mark_failed-IsFinished job code message now h
mark_failure-IsFinished job now (command_error true) h = mark_failed-IsFinished job _ _ now h
mark_failure-IsFinished job now (command_error false) h = mark_failed-IsFinished job _ _ now h
mark_failure-IsFinished job now (unexpected message) h = mark_failed-IsFinished job _ _ now h

pub mark_completed-IsFinished :
    (job : ProcessingJob) (now : ℕ) → IsFinished (mark_completed job now)
unfolding mark_completed
mark_completed-IsFinished job now = record {
  ended = inl refl;
  bounded = omega arith;
  full = λ e. refl;
  explained = λ e. cc;
  timed = (now, refl);
}

pub same-mark_failure :
    (job : ProcessingJob) (now : ℕ) (e : Failure)
    → ((mark_failure job now e).id ≡ job.id) × ((mark_failure job now e).options ≡ job.options)
unfolding mark_failure mark_failed
same-mark_failure job now (processing_error code message) = (refl, refl)
same-mark_failure job now (command_error true) = (refl, refl)
same-mark_failure job now (command_error false) = (refl, refl)
same-mark_failure job now (unexpected message) = (refl, refl)

redact-nil : (options : List (Text × Text)) → redact [] options ≡ options
unfolding redact member
redact-nil [] = refl
redact-nil ((key, value) ∷ options) = ap (λ rest. (key, value) ∷ rest) (redact-nil options)

pub redact_nothing :
    (keys : List Text) (options : List (Text × Text))
    → (is_empty keys || is_empty options) ≡ true
    → options ≡ redact keys options
unfolding redact
redact_nothing [] options h = sym (redact-nil options)
redact_nothing (k ∷ keys) [] h = refl
redact_nothing (k ∷ keys) (o ∷ options) h = cc

-- An option whose key is one of the keys holds nothing but the placeholder.
abbrev pub IsScrubbed : List Text → Text × Text → Type 0
IsScrubbed keys option = member option.0 keys ≡ true → option.1 ≡ codes "[redacted]"

pub redact-IsScrubbed :
    (keys : List Text) (options : List (Text × Text)) → All (IsScrubbed keys) (redact keys options)
unfolding redact
redact-IsScrubbed keys [] = tt
redact-IsScrubbed keys ((key, value) ∷ options) =
    ((λ secret. rw secret), redact-IsScrubbed keys options)
