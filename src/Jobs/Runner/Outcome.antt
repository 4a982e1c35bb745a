-- ===== src/Jobs/Runner/Outcome.antt =====
-- How a run of the worker ends (`run_tool_job` of app/tasks/base.py).
use tools_backend.Base.{
  ℕ, ◌≡◌, refl, sym, ap, ◌∙◌, ◌≢◌, inl, inr, true, false, ◌||◌, Option, none, some, List, [], arith,
  Bool-cases, Option-cases, is_empty, Result, ok, err, Text,
}
use mathlib.Core.Path.{subst}
use tools_backend.Constants.{ErrorCode, is_terminal}
use tools_backend.Jobs.Rows.{ProcessingJob, Db, find_job}
use tools_backend.Jobs.Rows.Lookup.{find_job-id}
use tools_backend.Jobs.Repository.{mark_processing, mark_completed}
use tools_backend.Jobs.Runner.{
  Storage, RunConfig, Failure, Run, commit, publish, mark_failure, redact, redacted, ToolRunContext,
  Processed, attempt, conclude, inputs_of, load_inputs, run_live, run_tool_job,
}
use tools_backend.Jobs.Runner.Working.{IsWorking, saved_present, saved_others, attempt-IsWorking}
use tools_backend.Jobs.Runner.Finished.{
  IsFinished, IsConcluded, mark_failure-IsFinished, mark_completed-IsFinished, same-mark_failure,
  redact_nothing,
}

module _ (origin : ProcessingJob) (jobs : List ProcessingJob) where
  -- Saving a finished version of the job.
  save-IsConcluded :
      (job : ProcessingJob) (options : List (Text × Text)) (r : Run)
      → job.id ≡ origin.id
      → job.options ≡ options
      → IsFinished job
      → (x : ProcessingJob) × (find_job origin.id r.db.jobs ≡ some x)
      → ((key : ℕ) → key ≢ origin.id → find_job key r.db.jobs ≡ find_job key jobs)
      → IsConcluded origin options jobs (commit (record r { job = job }))
  save-IsConcluded job options r e o f present others = record {
    same_id = e;
    same_options = o;
    finished = f;
    saved = saved_present origin.id jobs job r.db.jobs e present;
    others = saved_others origin.id jobs job r.db.jobs e others;
  }

  conclude-IsConcluded :
      (now : ℕ) (r : Run) (o : Result Failure (Unit {0}))
      → IsWorking origin jobs r
      → IsConcluded origin origin.options jobs (conclude now (r, o))
  unfolding conclude
  conclude-IsConcluded now r (ok _) h =
      save-IsConcluded (mark_completed r.job now) origin.options r
        (unfold mark_completed in h.same_id) (unfold mark_completed in h.same_options)
        (mark_completed-IsFinished r.job now) h.present h.others
  conclude-IsConcluded now r (err e) h =
      let (same_id, same_options) = same-mark_failure r.job now e in
      save-IsConcluded (mark_failure r.job now e) origin.options r (same_id ∙ h.same_id)
        (same_options ∙ h.same_options) (mark_failure-IsFinished r.job now e h.bounded) h.present
        h.others

  redacted-IsConcluded :
      (keys : List Text) (r : Run)
      → IsConcluded origin origin.options jobs r
      → IsConcluded origin (redact keys origin.options) jobs (redacted keys r)
  redacted-IsConcluded keys r h = elim (Bool-cases (is_empty keys || is_empty r.job.options)) [
    | inl nothing ↦ rw nothing (record {
      same_id = h.same_id;
      same_options =
          h.same_options ∙ redact_nothing keys origin.options (rw h.same_options at nothing);
      finished = h.finished;
      saved = h.saved;
      others = h.others;
    })
    | inr something ↦ rw something (
        save-IsConcluded (record r.job { options = redact keys r.job.options })
          (redact keys origin.options) r h.same_id (ap (redact keys) h.same_options)
          (record {
            ended = h.finished.ended;
            bounded = h.finished.bounded;
            full = h.finished.full;
            explained = h.finished.explained;
            timed = h.finished.timed;
          })
          (r.job, h.saved) h.others)
  ]

  publish-IsConcluded :
      (options : List (Text × Text)) (code : Option ErrorCode) (r : Run)
      → IsConcluded origin options jobs r
      → IsConcluded origin options jobs (publish code r)
  publish-IsConcluded options code r h = record {
    same_id = h.same_id;
    same_options = h.same_options;
    finished = h.finished;
    saved = h.saved;
    others = h.others;
  }

IsFinished-terminal : (job : ProcessingJob) → IsFinished job → is_terminal job.status ≡ true
IsFinished-terminal job h = elim h.ended [ inl e ↦ rw e | inr e ↦ rw e ]

still_over :
    (db : Db) (id : ℕ) (j j' : ProcessingJob)
    → find_job id db.jobs ≡ some j
    → find_job id db.jobs ≡ some j'
    → is_terminal j.status ≡ true
    → is_terminal j'.status ≡ true
still_over db id j j' found found' over = let e : j ≡ j' = cc in rw e at over

module _ (storage : Storage) where
  begun-IsWorking :
      (cfg : RunConfig) (job : ProcessingJob) (db : Db)
      → find_job job.id db.jobs ≡ some job
      → IsWorking job db.jobs (
          publish none
            (commit (record { job = mark_processing job cfg.started; db = db; events = [] })))
  unfolding mark_processing
  begun-IsWorking cfg job db h = record {
    same_id = refl;
    same_options = refl;
    same_user = refl;
    processing = refl;
    bounded = omega arith;
    present = (
      mark_processing job cfg.started,
      saved_present job.id db.jobs (mark_processing job cfg.started) db.jobs refl (job, h),
    );
    others =
        saved_others job.id db.jobs (mark_processing job cfg.started) db.jobs refl (λ key ne. refl);
  }

  run_live-IsConcluded :
      (cfg : RunConfig) (processor : ToolRunContext storage → Processed storage)
      (job : ProcessingJob) (db : Db)
      → find_job job.id db.jobs ≡ some job
      → IsConcluded job
          (redact cfg.redact_keys job.options)
          db.jobs
          (run_live storage cfg processor job db)
  unfolding run_live
  run_live-IsConcluded cfg processor job db h =
      let begun =
        publish none
          (commit (record { job = mark_processing job cfg.started; db = db; events = [] })) in
      let files = inputs_of job db in
      let tried = attempt storage cfg processor files (load_inputs storage files) begun in
      let concluded = conclude cfg.finished tried in
      publish-IsConcluded job db.jobs (redact cfg.redact_keys job.options)
        (redacted cfg.redact_keys concluded).job.error_code (redacted cfg.redact_keys concluded)
        (redacted-IsConcluded job db.jobs cfg.redact_keys concluded (
          conclude-IsConcluded job db.jobs cfg.finished tried.0 tried.1 (
            attempt-IsWorking job db.jobs storage cfg processor files (load_inputs storage files)
              begun (begun-IsWorking cfg job db h))))

  -- Whatever the tool's processor does, and however storage behaves: after the run of a job that
  -- was there and not terminal, its row is COMPLETED with progress 100, or FAILED with an error
  -- code; it has an end time, and it is never left in PROCESSING. Every other row is as before.
  pub run_tool_job-IsFinished :
      (cfg : RunConfig) (processor : ToolRunContext storage → Processed storage) (id : ℕ) (db : Db)
      (job : ProcessingJob)
      → find_job id db.jobs ≡ some job
      → is_terminal job.status ≡ false
      → ((j : ProcessingJob) × (find_job id (run_tool_job storage cfg processor id db).0.jobs
            ≡ some j)
          × IsFinished j)
        × ((key : ℕ)
            → key ≢ id
            → find_job key (run_tool_job storage cfg processor id db).0.jobs ≡ find_job key db.jobs)
  unfolding run_tool_job
  run_tool_job-IsFinished cfg processor id db job found live =
      let same = find_job-id id db.jobs job found in
      let c =
        run_live-IsConcluded cfg processor job db
          (subst (λ k. find_job k db.jobs ≡ some job) (sym same) found) in
      rw (found, live)
        (
          (
            (run_live storage cfg processor job db).job,
            subst
                (λ k.
                  find_job k (run_live storage cfg processor job db).db.jobs
                  ≡ some (run_live storage cfg processor job db).job)
                same c.saved,
            c.finished,
          ),
          λ key ne. c.others key (λ e. ne (e ∙ same)),
        )

  -- A job that is missing, or already terminal, is left alone: no table changes and no event is
  -- published.
  pub run_tool_job-terminal :
      (cfg : RunConfig) (processor : ToolRunContext storage → Processed storage) (id : ℕ) (db : Db)
      → ((job : ProcessingJob) → find_job id db.jobs ≡ some job → is_terminal job.status ≡ true)
      → run_tool_job storage cfg processor id db ≡ (db, [])
  unfolding run_tool_job
  run_tool_job-terminal cfg processor id db h = elim (Option-cases (find_job id db.jobs)) [
    | inl missing ↦ rw missing
    | inr (job, found) ↦ rw (found, h job found)
  ]

  -- A second delivery of the same task changes nothing and publishes nothing.
  pub run_tool_job-idempotent :
      (cfg cfg' : RunConfig) (processor processor' : ToolRunContext storage → Processed storage)
      (id : ℕ) (db : Db)
      → run_tool_job storage cfg' processor' id (run_tool_job storage cfg processor id db).0
        ≡ ((run_tool_job storage cfg processor id db).0, [])
  run_tool_job-idempotent cfg cfg' processor processor' id db =
      elim (Option-cases (find_job id db.jobs)) [
        | inl missing ↦
            let first = run_tool_job-terminal cfg processor id db (λ job found. cc) in
            rw first (run_tool_job-terminal cfg' processor' id db (λ job found. cc))
        | inr (job, found) ↦ elim (Bool-cases (is_terminal job.status)) [
          | inl over ↦
              let is_over = λ (j : ProcessingJob) (e : find_job id db.jobs ≡ some j).
                still_over db id job j found e over in
              let first = run_tool_job-terminal cfg processor id db is_over in
              rw first (run_tool_job-terminal cfg' processor' id db is_over)
          | inr live ↦
              let ((j, saved, finished), _) =
                run_tool_job-IsFinished cfg processor id db job found live in
              run_tool_job-terminal cfg' processor' id (run_tool_job storage cfg processor id db).0
                (λ j' e.
                  still_over (run_tool_job storage cfg processor id db).0 id j j' saved e
                    (IsFinished-terminal j finished))
        ]
      ]
