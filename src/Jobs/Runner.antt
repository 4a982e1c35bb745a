-- ===== src/Jobs/Runner.antt =====
-- The worker's pipeline `run_tool_job` (app/tasks/base.py). Storage, a component of its own, and the
-- tool's processor are parameters; database operations are taken to succeed.
pub mod Finished
pub mod Outcome
pub mod Working
use tools_backend.Base.{
  ℕ, Bool, true, false, ◌||◌, Option, none, List, [], ◌∷◌, ◌++◌, if◌then◌else◌, is_empty, Text,
  codes, member, Result, err, ok, some, map, suc, ◌>>=◌, ◌>>◌, raise_if, ◌+◌, any, not,
}
use tools_backend.Base.Integers.{ℤ}
use tools_backend.Constants.{
  FileStatus, FileCategory, JobFileRole, is_input, is_terminal, JobStatus, ErrorCode,
}
use tools_backend.Jobs.Rows.{
  StoredFile, JobFile, find_job, links_of, sort_links, files_of, ProcessingJob, Db, put_job,
}
use tools_backend.Filenames.{file_extension, sanitize_filename, or_else}
use tools_backend.Jobs.Repository.{set_progress, mark_failed, mark_completed, mark_processing}

-- Where `import_file` has put a file, and its size.
pub record Imported : Type 0 where
  pub stored_name : Text
  pub relative_path : Text
  pub size : ℕ

-- What the runner uses of app/services/storage.py and of the file system.
pub record Storage : Type 1 where
  pub FilePath : Type 0
  -- `path.name`
  pub name_of : FilePath → Text
  -- `none` is a StorageError
  pub resolve : FileCategory → Text → Option FilePath
  pub is_file : FilePath → Bool
  pub import_file : FilePath → FileCategory → Text → Option Imported
  -- `sha256_file` of an imported file, by its relative path
  pub sha256_file : Text → Text

-- What a run reads besides its job: Unicode normalisation, the clock at the three places that read
-- it, FILE_RETENTION_HOURS in seconds, and the `redact_option_keys` of the task.
pub record RunConfig : Type 0 where
  pub nfkc : Text → Text
  pub started : ℕ
  pub exported : ℕ
  pub finished : ℕ
  pub retention : ℕ
  pub redact_keys : List Text

-- The exceptions that end a run: `ProcessingError`, `CommandError` with its `timed_out`, any other.
pub data Failure : Type 0 where
  processing_error : ErrorCode → Text → Failure
  command_error : Bool → Failure
  unexpected : Text → Failure

pub record Event : Type 0 where
  pub status : JobStatus
  pub progress : ℕ
  pub error_code : Option ErrorCode

-- The job object of the session, the tables, and the events published so far.
pub record Run : Type 0 where
  pub job : ProcessingJob
  pub db : Db
  pub events : List Event

-- `session.commit()`
abbrev pub commit : Run → Run
commit r = record r { db = record r.db { jobs = put_job r.job r.db.jobs } }

abbrev pub publish : Option ErrorCode → Run → Run
publish error_code r = record r {
  events =
      r.events
      ++ record { status = r.job.status; progress = r.job.progress; error_code = error_code } ∷ [];
}

-- The runner's `report_progress`.
abbrev pub report_progress : ℤ → Run → Run
report_progress progress r = publish none (commit (record r { job = set_progress r.job progress }))

pub report_all : List ℤ → Run → Run
report_all [] r = r
report_all (p ∷ ps) r = report_all ps (report_progress p r)

abbrev timeout_message : Text
timeout_message =
    codes
      "Processing took too long and was stopped. Very large or complex files can exceed the server's time limit — try a smaller file or split it into parts."

abbrev command_message : Text
command_message =
    codes
      "The converter could not process this file. It may be corrupted, password-protected, or use features the converter does not support."

-- The three `except` branches: what is stored on the job row.
pub mark_failure : ProcessingJob → ℕ → Failure → ProcessingJob
mark_failure job now (processing_error code message) = mark_failed job code message now
mark_failure job now (command_error true) =
    mark_failed job ErrorCode.processing_timeout timeout_message now
mark_failure job now (command_error false) =
    mark_failed job ErrorCode.processing_failed command_message now
mark_failure job now (unexpected message) =
    mark_failed job ErrorCode.internal_server_error (codes "Unexpected error: " ++ message) now

-- `{key: "[redacted]" if key in keys else value}`
pub redact : List Text → List (Text × Text) → List (Text × Text)
redact keys [] = []
redact keys ((key, value) ∷ options) =
    (key, if member key keys then codes "[redacted]" else value) ∷ redact keys options

-- The part of `finally` that scrubs the options.
abbrev pub redacted : List Text → Run → Run
redacted keys r =
    if is_empty keys || is_empty r.job.options
    then r
    else commit (record r { job = record r.job { options = redact keys r.job.options } })

-- `mark_completed`, or the `except` branches, each followed by a commit.
pub conclude : ℕ → Run × Result Failure (Unit {0}) → Run
unfolding mark_failure
conclude now (r, ok _) = commit (record r { job = mark_completed r.job now })
conclude now (r, err e) = commit (record r { job = mark_failure r.job now e })

abbrev pub inputs_of : ProcessingJob → Db → List StoredFile
inputs_of job db = files_of db.files (sort_links (links_of job.id is_input db.links))

module _ (storage : Storage) where
  open storage use {FilePath, name_of, resolve, is_file, import_file, sha256_file}

  pub record ProducedFile : Type 0 where
    pub path : FilePath
    pub download_name : Text
    pub media_type : Text

  -- What a processor is given; its scratch directory is left out.
  pub record ToolRunContext : Type 0 where
    pub job : ProcessingJob
    pub input_paths : List FilePath
    pub input_names : List Text
    pub options : List (Text × Text)

  -- What a processor does: the progress that it reports, in order, and how it ends.
  pub record Processed : Type 0 where
    pub reports : List ℤ
    pub outcome : Result Failure (List ProducedFile)

  abbrev resolved : Option FilePath → Result Failure FilePath
  resolved none = err (unexpected (codes "Stored file path escapes the storage tree."))
  resolved (some p) = ok p

  pub resolve_all : List StoredFile → Result Failure (List FilePath)
  resolve_all [] = ok []
  resolve_all (f ∷ fs) = do
    p ← resolved (resolve f.category f.relative_path)
    ps ← resolve_all fs
    ok (p ∷ ps)

  abbrev expired_message : Text
  expired_message = codes "One or more input files are no longer available."

  -- The "load_inputs" phase and the check behind it.
  pub load_inputs : List StoredFile → Result Failure (List FilePath)
  unfolding resolve_all
  load_inputs files = do
    paths ← resolve_all files
    raise_if (any (λ p. not (is_file p)) paths)
        (processing_error ErrorCode.file_expired expired_message)
    ok paths

  -- `file_extension(item.download_name) or file_extension(item.path.name)`
  abbrev pub extension_of : ProducedFile → Text
  extension_of item =
      or_else (file_extension item.download_name) (file_extension (name_of item.path))

  -- The row and the link that an imported output gets.
  abbrev pub output_file : RunConfig → ProcessingJob → ProducedFile → Imported → ℕ → StoredFile
  output_file cfg job item stored id = record {
    id = id;
    original_name = sanitize_filename cfg.nfkc (codes "file") item.download_name;
    stored_name = stored.stored_name;
    category = FileCategory.processed;
    relative_path = stored.relative_path;
    media_type = item.media_type;
    extension = extension_of item;
    size_bytes = stored.size;
    checksum_sha256 = some (sha256_file stored.relative_path);
    status = FileStatus.active;
    user_id = job.user_id;
    expires_at = some (cfg.exported + cfg.retention);
  }

  abbrev pub add_output : RunConfig → ℕ → ProducedFile → Imported → Run → Run
  add_output cfg position item stored r =
      let new_id = r.db.next_id in
      record r {
        db = record r.db {
          files = r.db.files ++ output_file cfg r.job item stored new_id ∷ [];
          links =
              r.db.links
              ++ record {
                job_id = r.job.id;
                file_id = new_id;
                role = JobFileRole.output;
                position = position;
              }
                ∷ [];
          next_id = suc new_id;
        };
      }

  abbrev pub import_message : Text
  import_message = codes "Failed to store the processed file."

  -- Goes on with an imported file, or ends with the StorageError.
  abbrev pub if_imported :
      Option Imported
      → (Imported → Run × Result Failure (Unit {0}))
      → Run
      → Run × Result Failure (Unit {0})
  if_imported none next r = (r, err (unexpected import_message))
  if_imported (some stored) next r = next stored

  -- `_register_outputs`: a failing import leaves the outputs before it registered.
  pub register_outputs : RunConfig → ℕ → List ProducedFile → Run → Run × Result Failure (Unit {0})
  register_outputs cfg position [] r = (r, ok tt)
  register_outputs cfg position (item ∷ items) r =
      if_imported (import_file item.path FileCategory.processed (extension_of item))
        (λ stored.
          register_outputs cfg (suc position) items (add_output cfg position item stored r))
        r

  abbrev no_output_message : Text
  no_output_message = codes "The tool produced no output."

  -- Behind the processor: no output is a failure, otherwise the outputs are registered.
  pub export_outputs :
      RunConfig → Result Failure (List ProducedFile) → Run → Run × Result Failure (Unit {0})
  unfolding register_outputs
  export_outputs cfg (err e) r = (r, err e)
  export_outputs cfg (ok []) r =
      (r, err (processing_error ErrorCode.processing_failed no_output_message))
  export_outputs cfg (ok (item ∷ items)) r = register_outputs cfg 0 (item ∷ items) r

  abbrev pub context_of : ProcessingJob → List StoredFile → List FilePath → ToolRunContext
  context_of job files paths = record {
    job = job;
    input_paths = paths;
    input_names = map (λ f. f.original_name) files;
    options = job.options;
  }

  -- The body of the `try`.
  pub attempt :
      RunConfig
      → (ToolRunContext → Processed)
      → List StoredFile
      → Result Failure (List FilePath)
      → Run
      → Run × Result Failure (Unit {0})
  unfolding report_all export_outputs
  attempt cfg processor files (err e) r = (r, err e)
  attempt cfg processor files (ok paths) r =
      let processed = processor (context_of r.job files paths) in
      export_outputs cfg processed.outcome (report_all processed.reports r)

  -- The run of a job that is there and not finished.
  pub run_live : RunConfig → (ToolRunContext → Processed) → ProcessingJob → Db → Run
  unfolding load_inputs attempt conclude redact
  run_live cfg processor job db =
      let begun =
        publish none
          (commit (record { job = mark_processing job cfg.started; db = db; events = [] })) in
      let files = inputs_of job db in
      let concluded =
        conclude cfg.finished (attempt cfg processor files (load_inputs files) begun) in
      let scrubbed = redacted cfg.redact_keys concluded in publish scrubbed.job.error_code scrubbed

  abbrev outcome_of : Run → Db × List Event
  outcome_of r = (r.db, r.events)

  -- A job that is missing or already terminal is left alone.
  pub run_found :
      RunConfig → (ToolRunContext → Processed) → Db → Option ProcessingJob → Db × List Event
  unfolding run_live
  run_found cfg processor db none = (db, [])
  run_found cfg processor db (some job) =
      if is_terminal job.status then (db, []) else outcome_of (run_live cfg processor job db)

  -- `run_tool_job`: the new tables and the events published.
  pub run_tool_job : RunConfig → (ToolRunContext → Processed) → ℕ → Db → Db × List Event
  unfolding run_found
  run_tool_job cfg processor job_id db = run_found cfg processor db (find_job job_id db.jobs)
