-- ===== src/Jobs/Rows/Lookup.antt =====
-- Looking up a job behind an update of the table (app/models/job.py).
use tools_backend.Base.{ℕ, ◌≡◌, refl, ◌≢◌, some, List, [], ◌∷◌, arith}
use tools_backend.Jobs.Rows.{ProcessingJob, find_job, put_job}

pub find_job-put_job_self :
    (j : ProcessingJob) (js : List ProcessingJob) (x : ProcessingJob)
    → find_job j.id js ≡ some x
    → find_job j.id (put_job j js) ≡ some j
find_job-put_job_self j [] x h = cc
find_job-put_job_self j (k ∷ ks) x h = ground (arith, find_job-put_job_self j ks x)

pub find_job-put_job_ne :
    (j : ProcessingJob) (js : List ProcessingJob) (key : ℕ)
    → key ≢ j.id
    → find_job key (put_job j js) ≡ find_job key js
find_job-put_job_ne j [] key h = refl
find_job-put_job_ne j (k ∷ ks) key h = ground (arith, find_job-put_job_ne j ks key h)

pub find_job-id :
    (key : ℕ) (js : List ProcessingJob) (x : ProcessingJob) → find_job key js ≡ some x → x.id ≡ key
find_job-id key [] x h = cc
find_job-id key (k ∷ ks) x h = ground (arith, find_job-id key ks x)
