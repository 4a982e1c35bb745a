-- ===== src/Admin/Jobs/Cancelled.antt =====
-- A cancelled job and the worker (`cancel_job` of app/services/admin.py, `run_tool_job` of
-- app/tasks/base.py).
use mathlib.Core.Path.{subst}
use tools_backend.Base.{
  ℕ, ◌≡◌, refl, sym, ◌∙◌, ◌≢◌, true, false, some, List, [], ok, >>=-eq-ok, raise_if-eq-ok,
}
use tools_backend.Constants.{JobStatus, is_terminal}
use tools_backend.Exceptions.{AppException}
use tools_backend.Jobs.Rows.{ProcessingJob, Db, find_job, put_job}
use tools_backend.Jobs.Rows.Lookup.{find_job-put_job_self, find_job-put_job_ne, find_job-id}
use tools_backend.Jobs.Runner.{Storage, RunConfig, ToolRunContext, Processed, run_tool_job}
use tools_backend.Jobs.Runner.Outcome.{run_tool_job-terminal}
use tools_backend.Admin.Users.{require-eq-ok, require}
use tools_backend.Admin.Jobs.{cancel_job, cancelled}

-- The jobs behind a cancellation that succeeds.
cancel_job-parts :
    (now : ℕ) (jobs : List ProcessingJob) (id : ℕ) {jobs' : List ProcessingJob} {j : ProcessingJob}
    → cancel_job now jobs id ≡ ok (jobs', j)
    → (old : ProcessingJob) × (find_job id jobs ≡ some old)
      × (is_terminal old.status ≡ false)
      × (jobs' ≡ put_job (cancelled now old) jobs)
      × (j ≡ cancelled now old)
unfolding cancel_job
cancel_job-parts now jobs id h =
    let (old, found, h1) = >>=-eq-ok (require (find_job id jobs)) _ h in
    let (live, h2) = raise_if-eq-ok (is_terminal old.status) AppException.bad_request_error _ h1 in
    (old, require-eq-ok (find_job id jobs) found, live, cc, cc)

cancelled-is_terminal :
    (now : ℕ) (old job : ProcessingJob)
    → some (cancelled now old) ≡ some job
    → is_terminal job.status ≡ true
cancelled-is_terminal now old job e = let same : cancelled now old ≡ job = cc in rw (sym same) refl

module _ (storage : Storage) where
  -- A job that is cancelled while it waits is stored as CANCELLED, and a worker that receives its
  -- task afterwards changes no table and publishes nothing. The other jobs stay as they are.
  pub cancel_job-run_tool_job :
      (cfg : RunConfig) (processor : ToolRunContext storage → Processed storage) (now id other : ℕ)
      (db : Db) (jobs : List ProcessingJob) (j : ProcessingJob)
      → cancel_job now db.jobs id ≡ ok (jobs, j)
      → other ≢ id
      → (find_job id jobs ≡ some j)
        × (j.status ≡ JobStatus.cancelled)
        × (find_job other jobs ≡ find_job other db.jobs)
        × (run_tool_job storage cfg processor id (record db { jobs = jobs })
            ≡ (record db { jobs = jobs }, []))
  cancel_job-run_tool_job cfg processor now id other db jobs j h differs =
      let (old, found, _, e, e') = cancel_job-parts now db.jobs id h in
      let same = find_job-id id db.jobs old found in
      let stored =
        subst (λ k. find_job k (put_job (cancelled now old) db.jobs) ≡ some (cancelled now old))
          same
          (find_job-put_job_self (cancelled now old) db.jobs old
            (subst (λ k. find_job k db.jobs ≡ some old) (sym same) found)) in
      rw (e, e')
        (
          stored,
          refl,
          find_job-put_job_ne (cancelled now old) db.jobs other (λ x. differs (x ∙ same)),
          run_tool_job-terminal storage cfg processor id
              (record db { jobs = put_job (cancelled now old) db.jobs })
              (λ job found_job. cancelled-is_terminal now old job (sym stored ∙ found_job)),
        )
