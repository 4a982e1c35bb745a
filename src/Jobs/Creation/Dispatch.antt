-- ===== src/Jobs/Creation/Dispatch.antt =====
-- What job creation stores (`create_job` of app/services/tool_base.py), for a broker that accepts the
-- task and for one that refuses it.
use tools_backend.Base.{ℕ, ◌<◌, ◌≡◌, false, Option, some, List, [], ◌∷◌, ◌==◌, ok, >>=-eq-ok}
use tools_backend.Jobs.Runner.{Storage, RunConfig, ToolRunContext, Processed, run_tool_job}
use tools_backend.Constants.{JobStatus, ErrorCode}
use tools_backend.Jobs.Rows.{StoredFile, ProcessingJob, Db, find_job}
use tools_backend.Jobs.Creation.{
  ToolService, PageVisit, Client, Options, create_job, validate_options, validate_inputs,
  queued_job, with_job, dispatched,
}

-- Identifiers that are handed out next are not in use.
abbrev pub AreBelow : ℕ → List ProcessingJob → Type 0
AreBelow n [] = Unit
AreBelow n (j ∷ js) = (j.id < n) × AreBelow n js

-- What an accepted request leads to: its options validate, its inputs too, and the result is that of
-- the dispatch of the queued job.
pub create_job-steps :
    (dispatch : ℕ → Db → Option Db) (tool : ToolService) (visits : List PageVisit) (client : Client)
    (now later retention task_id : ℕ) (db : Db) (file_ids : List ℕ) (options : Options)
    (result : ProcessingJob × Db)
    → create_job dispatch tool visits client now later retention task_id db file_ids options
      ≡ ok result
    → (validated : Options) × (fs : List StoredFile) × (validate_options tool.options_model options
        ≡ ok validated)
      × (validate_inputs tool db.files file_ids client.user_id client.plan ≡ ok fs)
      × (dispatched
            (queued_job tool visits client validated now retention task_id db.next_id)
            later
            (with_job db
              (queued_job tool visits client validated now retention task_id db.next_id)
              fs)
            (dispatch db.next_id (
              with_job db
                (queued_job tool visits client validated now retention task_id db.next_id)
                fs))
          ≡ result)
unfolding create_job queued_job
create_job-steps dispatch tool visits client now later retention task_id db file_ids options result
      h =
    let (validated, v, rest) = >>=-eq-ok (validate_options tool.options_model options) _ h in
    let (fs, i, same) =
      >>=-eq-ok (validate_inputs tool db.files file_ids client.user_id client.plan) _ rest in
    (validated, fs, v, i, cc)

-- The job was committed as QUEUED, and the dispatch has taken it.
abbrev pub IsDispatched : (ℕ → Db → Option Db) → ProcessingJob → Db → Type 0
IsDispatched dispatch job db' =
    (committed : Db) × (find_job job.id committed.jobs ≡ some job)
    × (job.status ≡ JobStatus.queued)
    × (dispatch job.id committed ≡ some db')

module _ (storage : Storage) (cfg : RunConfig)
    (processor : ToolRunContext storage → Processed storage) where
  -- The job is stored as FAILED, the other rows are as before, and a worker that receives the task
  -- after all changes nothing.
  abbrev pub IsRefused : ℕ → Db → ProcessingJob → Db → Type 0
  IsRefused later db job db' =
      (find_job job.id db'.jobs ≡ some job)
      × (job.status ≡ JobStatus.failed)
      × (job.error_code ≡ some ErrorCode.service_unavailable)
      × (job.finished_at ≡ some later)
      × ((key : ℕ) → (job.id == key) ≡ false → find_job key db'.jobs ≡ find_job key db.jobs)
      × (run_tool_job storage cfg processor job.id db' ≡ (db', []))
