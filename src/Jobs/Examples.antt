-- ===== src/Jobs/Examples.antt =====
-- A sample job that is created and run, with storage that finds every file.
use tools_backend.Base.{
  ℕ, ◌≤◌, ◌≡◌, refl, ◌≢◌, true, false, none, some, List, [], ◌∷◌, arith, ok, Text, codes,
}
use mathlib.Core.List.{Permᴰ}
use tools_backend.Base.Integers.{pos}
use tools_backend.Constants.{FileStatus, FileCategory, JobStatus, JobFileRole}
use tools_backend.Plans.{limits_for_plan, max_total_size_bytes}
use tools_backend.Jobs.Rows.{StoredFile, Visit, ProcessingJob, Db, find_job, JobFile}
use tools_backend.Admin.Jobs.{cancel_job}
use tools_backend.Admin.Jobs.Cancelled.{cancel_job-run_tool_job}
use tools_backend.Jobs.Runner.{
  Storage, RunConfig, ProducedFile, ToolRunContext, Processed, run_tool_job, inputs_of,
}
use tools_backend.Jobs.Runner.Finished.{IsFinished}
use tools_backend.Jobs.Runner.Outcome.{run_tool_job-IsFinished, run_tool_job-idempotent}
use tools_backend.Jobs.Creation.{
  ToolService, Client, create_job, validate_inputs, total_size, queued_job, undispatched, with_job,
}
use tools_backend.Jobs.Creation.Accepted.{AreUsable, validate_inputs-AreUsable}
use tools_backend.Jobs.Creation.InputOrder.{file_ids_of, create_job-input_order}

abbrev storage : Storage
storage = record {
  FilePath = Text;
  name_of = λ p. p;
  resolve = λ category path. some path;
  is_file = λ p. true;
  import_file =
      λ p category extension. some (record { stored_name = p; relative_path = p; size = 3 });
  sha256_file = λ path. path;
}

abbrev config : RunConfig
config = record {
  nfkc = λ t. t;
  started = 10;
  exported = 20;
  finished = 30;
  retention = 100;
  redact_keys = codes "password" ∷ [];
}

-- A tool that reports its progress twice and returns its first input.
abbrev produced : List Text → List (ProducedFile storage)
produced [] = []
produced (p ∷ ps) =
    record { path = p; download_name = codes "out.pdf"; media_type = codes "application/pdf" } ∷ []

abbrev processor : ToolRunContext storage → Processed storage
processor ctx = record { reports = pos 50 ∷ pos 250 ∷ []; outcome = ok (produced ctx.input_paths) }

abbrev sample_file : ℕ → StoredFile
sample_file id = record {
  id = id;
  original_name = codes "a.pdf";
  stored_name = codes "u.pdf";
  category = FileCategory.upload;
  relative_path = codes "2026/01/01/u.pdf";
  media_type = codes "application/pdf";
  extension = codes "pdf";
  size_bytes = 5;
  checksum_sha256 = none;
  status = FileStatus.active;
  user_id = some 7;
  expires_at = some 500;
}

abbrev sample_visit : Visit
sample_visit = record {
  visitor_id = none;
  session_id = none;
  device = [];
  browser = [];
  os = [];
  country = [];
  source = [];
  is_returning = false;
}

abbrev sample_job : ProcessingJob
sample_job = record {
  id = 3;
  tool = codes "unlock-pdf";
  status = JobStatus.queued;
  progress = 0;
  options = (codes "password", codes "secret") ∷ [];
  celery_task_id = some 9;
  user_id = some 7;
  error_code = none;
  error_message = none;
  started_at = none;
  finished_at = none;
  expires_at = some 500;
  visit = sample_visit;
}

abbrev queue : Db
queue = record {
  jobs = sample_job ∷ [];
  files = sample_file 1 ∷ [];
  links = record { job_id = 3; file_id = 1; role = JobFileRole.input; position = 0 } ∷ [];
  next_id = 4;
}

abbrev cancelled_queue : Db
cancelled_queue = record queue {
  jobs = record sample_job { status = JobStatus.cancelled; finished_at = some 15 } ∷ [];
}

run_tool_job-IsFinished_example :
    ((j : ProcessingJob) × (find_job 3 (run_tool_job storage config processor 3 queue).0.jobs
        ≡ some j)
      × IsFinished j)
    × ((key : ℕ)
        → key ≢ 3
        → find_job key (run_tool_job storage config processor 3 queue).0.jobs
          ≡ find_job key queue.jobs)
run_tool_job-IsFinished_example =
    run_tool_job-IsFinished storage config processor 3 queue sample_job refl refl

cancel_job-run_tool_job_example :
    (find_job 3 (record sample_job { status = JobStatus.cancelled; finished_at = some 15 } ∷ [])
      ≡ some (record sample_job { status = JobStatus.cancelled; finished_at = some 15 }))
    × (JobStatus.cancelled ≡ JobStatus.cancelled)
    × (find_job 4 (record sample_job { status = JobStatus.cancelled; finished_at = some 15 } ∷ [])
        ≡ find_job 4 queue.jobs)
    × (run_tool_job storage config processor 3 cancelled_queue ≡ (cancelled_queue, []))
unfolding cancel_job
cancel_job-run_tool_job_example =
    cancel_job-run_tool_job storage config processor 15 3 4 queue cancelled_queue.jobs
      (record sample_job { status = JobStatus.cancelled; finished_at = some 15 }) refl (λ e. cc)

run_tool_job-idempotent_example :
    run_tool_job storage config processor 3 (run_tool_job storage config processor 3 queue).0
    ≡ ((run_tool_job storage config processor 3 queue).0, [])
run_tool_job-idempotent_example =
    run_tool_job-idempotent storage config config processor processor 3 queue

abbrev tool : ToolService
tool = record {
  slug = codes "merge-pdf";
  allowed_input_extensions = codes "pdf" ∷ [];
  min_input_files = 2;
  max_input_files = 20;
  options_model = some (λ options. some options);
}

abbrev client : Client
client = record {
  user_id = some 7;
  plan = none;
  visitor_id = none;
  session_id = none;
  user_agent = [];
  accept_lang = [];
  cf_country = none;
}

abbrev library : Db
library = record {
  jobs = sample_job ∷ [];
  files = sample_file 1 ∷ sample_file 2 ∷ [];
  links = record { job_id = 3; file_id = 1; role = JobFileRole.input; position = 0 } ∷ [];
  next_id = 4;
}

abbrev given_options : List (Text × Text)
given_options = (codes "password", codes "secret") ∷ []

validate_inputs-AreUsable_example :
    AreUsable tool (limits_for_plan none) (some 7) (2 ∷ 1 ∷ []) (sample_file 2 ∷ sample_file 1 ∷ [])
    × (2 ≤ 2)
    × (2 ≤ 20)
    × (2 ≤ (limits_for_plan none).max_files)
    × (total_size (sample_file 2 ∷ sample_file 1 ∷ [])
        ≤ max_total_size_bytes (limits_for_plan none))
unfolding validate_inputs
validate_inputs-AreUsable_example =
    validate_inputs-AreUsable tool library.files (2 ∷ 1 ∷ []) (some 7) none
      (sample_file 2 ∷ sample_file 1 ∷ []) refl

abbrev new_job : ProcessingJob
new_job = queued_job tool [] client given_options 100 1000 8 4

abbrev new_library : Db
new_library = with_job library new_job (sample_file 2 ∷ sample_file 1 ∷ [])

abbrev input_link : ℕ → ℕ → ℕ → JobFile
input_link job_id file_id position = record {
  job_id = job_id;
  file_id = file_id;
  role = JobFileRole.input;
  position = position;
}

-- The second input comes back before the first one.
abbrev shuffled : List JobFile
shuffled = input_link 3 1 0 ∷ input_link 4 1 1 ∷ input_link 4 2 0 ∷ []

create_job-input_order_example :
    file_ids_of (inputs_of new_job (record new_library { links = shuffled })) ≡ 2 ∷ 1 ∷ []
unfolding create_job
create_job-input_order_example =
    create_job-input_order tool [] client 100 105 1000 8 library new_library (2 ∷ 1 ∷ [])
      given_options new_job shuffled (ground arith, tt) refl
      (Permᴰ.cons refl (Permᴰ.swap refl refl))

abbrev lost_job : ProcessingJob
lost_job = undispatched new_job 105

abbrev lost_library : Db
lost_library = record new_library { jobs = sample_job ∷ lost_job ∷ [] }
