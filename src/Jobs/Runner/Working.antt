-- ===== src/Jobs/Runner/Working.antt =====
-- What holds at every point of a run between its two commits of the status (app/tasks/base.py).
use tools_backend.Base.{
  ℕ, suc, ◌≤◌, ◌≡◌, ◌∙◌, ◌≢◌, some, List, [], ◌∷◌, arith, ok, Result, err, Option, none,
}
use tools_backend.Base.Integers.{ℤ, pos, negsuc}
use tools_backend.Constants.{FileCategory, JobStatus}
use tools_backend.Jobs.Rows.{StoredFile, ProcessingJob, find_job, put_job}
use tools_backend.Jobs.Rows.Lookup.{find_job-put_job_self, find_job-put_job_ne}
use tools_backend.Jobs.Repository.{clamp, set_progress}
use tools_backend.Jobs.Runner.{
  extension_of, context_of, Imported, Storage, RunConfig, Failure, Run, report_progress, report_all,
  ProducedFile, ToolRunContext, Processed, add_output, register_outputs, export_outputs, attempt,
  if_imported,
}

-- Of the run of the job `origin` on the table `jobs`: the job object is the row of that id, in status
-- PROCESSING, with the options and the owner that it had; the row is in the table, and the other rows are as they were.
pub record IsWorking (origin : ProcessingJob) (jobs : List ProcessingJob) (r : Run) : Type 0 where
  pub same_id : r.job.id ≡ origin.id
  pub same_options : r.job.options ≡ origin.options
  pub same_user : r.job.user_id ≡ origin.user_id
  pub processing : r.job.status ≡ JobStatus.processing
  pub bounded : r.job.progress ≤ 100
  pub present : (x : ProcessingJob) × (find_job origin.id r.db.jobs ≡ some x)
  pub others : (key : ℕ) → key ≢ origin.id → find_job key r.db.jobs ≡ find_job key jobs

clamp-le : (p : ℤ) → clamp p ≤ 100
clamp-le (pos n) = ground arith
clamp-le (negsuc n) = omega arith

module _ (id : ℕ) (jobs : List ProcessingJob) where
  -- Saving a version of the job keeps the row and the other rows.
  pub saved_present :
      (job : ProcessingJob) (table : List ProcessingJob)
      → job.id ≡ id
      → (x : ProcessingJob) × (find_job id table ≡ some x)
      → find_job id (put_job job table) ≡ some job
  saved_present job table e (x, found) = rw (← e) (find_job-put_job_self job table x (rw e found))

  pub saved_others :
      (job : ProcessingJob) (table : List ProcessingJob)
      → job.id ≡ id
      → ((key : ℕ) → key ≢ id → find_job key table ≡ find_job key jobs)
      → (key : ℕ) → key ≢ id
      → find_job key (put_job job table) ≡ find_job key jobs
  saved_others job table e others key ne =
      find_job-put_job_ne job table key (λ same. ne (same ∙ e)) ∙ others key ne

module _ (origin : ProcessingJob) (jobs : List ProcessingJob) where
  report_progress-IsWorking :
      (p : ℤ) (r : Run) → IsWorking origin jobs r → IsWorking origin jobs (report_progress p r)
  unfolding set_progress
  report_progress-IsWorking p r h = record {
    same_id = h.same_id;
    same_options = h.same_options;
    same_user = h.same_user;
    processing = h.processing;
    bounded = clamp-le p;
    present = (
      set_progress r.job p,
      saved_present origin.id jobs (set_progress r.job p) r.db.jobs h.same_id h.present,
    );
    others = saved_others origin.id jobs (set_progress r.job p) r.db.jobs h.same_id h.others;
  }

  report_all-IsWorking :
      (ps : List ℤ) (r : Run) → IsWorking origin jobs r → IsWorking origin jobs (report_all ps r)
  unfolding report_all
  report_all-IsWorking [] r h = h
  report_all-IsWorking (p ∷ ps) r h =
      report_all-IsWorking ps (report_progress p r) (report_progress-IsWorking p r h)

  module _ (storage : Storage) where
    open storage use {FilePath, import_file}

    if_imported-IsWorking :
        (o : Option Imported) (next : Imported → Run × Result Failure (Unit {0})) (r : Run)
        → IsWorking origin jobs r
        → ((stored : Imported) → IsWorking origin jobs (next stored).0)
        → IsWorking origin jobs (if_imported storage o next r).0
    if_imported-IsWorking none next r h k = h
    if_imported-IsWorking (some stored) next r h k = k stored

    add_output-IsWorking :
        (cfg : RunConfig) (position : ℕ) (item : ProducedFile storage) (stored : Imported) (r : Run)
        → IsWorking origin jobs r
        → IsWorking origin jobs (add_output storage cfg position item stored r)
    add_output-IsWorking cfg position item stored r h = record {
      same_id = h.same_id;
      same_options = h.same_options;
      same_user = h.same_user;
      processing = h.processing;
      bounded = h.bounded;
      present = h.present;
      others = h.others;
    }

    register_outputs-IsWorking :
        (cfg : RunConfig) (position : ℕ) (items : List (ProducedFile storage)) (r : Run)
        → IsWorking origin jobs r
        → IsWorking origin jobs (register_outputs storage cfg position items r).0
    unfolding register_outputs
    register_outputs-IsWorking cfg position [] r h = h
    register_outputs-IsWorking cfg position (item ∷ items) r h =
        if_imported-IsWorking
          (import_file item.path FileCategory.processed (extension_of storage item))
          (λ stored.
            register_outputs storage cfg (suc position) items
              (add_output storage cfg position item stored r))
          r h
          (λ stored.
            register_outputs-IsWorking cfg (suc position) items
              (add_output storage cfg position item stored r)
              (add_output-IsWorking cfg position item stored r h))

    export_outputs-IsWorking :
        (cfg : RunConfig) (o : Result Failure (List (ProducedFile storage))) (r : Run)
        → IsWorking origin jobs r
        → IsWorking origin jobs (export_outputs storage cfg o r).0
    unfolding export_outputs
    export_outputs-IsWorking cfg (err e) r h = h
    export_outputs-IsWorking cfg (ok []) r h = h
    export_outputs-IsWorking cfg (ok (item ∷ items)) r h =
        register_outputs-IsWorking cfg 0 (item ∷ items) r h

    pub attempt-IsWorking :
        (cfg : RunConfig) (processor : ToolRunContext storage → Processed storage)
        (files : List StoredFile) (loaded : Result Failure (List FilePath)) (r : Run)
        → IsWorking origin jobs r
        → IsWorking origin jobs (attempt storage cfg processor files loaded r).0
    unfolding attempt
    attempt-IsWorking cfg processor files (err e) r h = h
    attempt-IsWorking cfg processor files (ok paths) r h =
        let processed = processor (context_of storage r.job files paths) in
        export_outputs-IsWorking cfg processed.outcome (report_all processed.reports r)
          (report_all-IsWorking processed.reports r h)
