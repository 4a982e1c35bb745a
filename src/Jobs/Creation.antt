-- ===== src/Jobs/Creation.antt =====
-- Creating a job (`BaseToolService.create_job` of app/services/tool_base.py).
pub mod InputOrder
pub mod Dispatch
pub mod Accepted
use tools_backend.Base.{
  ℕ, suc, ◌+◌, ◌-◌, ◌/◌, min, max, ap, Bool, false, ◌&&◌, not, Option, none, some, List, [], ◌∷◌,
  ◌++◌, ltb, leb, if◌then◌else◌, length, any, is_empty, Result, ok, err, raise_if, Text, codes,
  text_eq, member, ◌>>=◌, ◌>>◌,
}
use tools_backend.Constants.{JobStatus, JobFileRole, ErrorCode}
use tools_backend.Exceptions.{
  AppException, SizeLimit, validation_error, unsupported_file_type_error, file_too_large_error,
  file_not_found_app_error, per_file, combined,
}
use tools_backend.Plans.{PlanLimits, limits_for_plan, max_file_size_bytes, max_total_size_bytes}
use tools_backend.Analytics.{parse_user_agent, detect_country}
use tools_backend.Jobs.Rows.{StoredFile, Visit, ProcessingJob, JobFile, Db, find_job, put_job}
use tools_backend.Jobs.Repository.{get_active}

abbrev pub Options : Type 0
Options = List (Text × Text)

-- What a concrete tool declares. `options_model` is its Pydantic model, if it has one: the options
-- as validated, or `none` for a validation error.
pub record ToolService : Type 0 where
  pub slug : Text
  pub allowed_input_extensions : List Text
  pub min_input_files : ℕ
  pub max_input_files : ℕ
  pub options_model : Option (Options → Option Options)

-- A row of `page_visits`, as far as job creation reads it.
pub record PageVisit : Type 0 where
  pub visitor_id : Text
  pub session_id : Text
  pub source : Text

-- What the request carries besides the files and the options.
pub record Client : Type 0 where
  pub user_id : Option ℕ
  pub plan : Option Text
  pub visitor_id : Option Text
  pub session_id : Option Text
  pub user_agent : Text
  pub accept_lang : Text
  pub cf_country : Option Text

abbrev accepted : Option Options → Result AppException Options
accepted none = err validation_error
accepted (some options) = ok options

-- `_validate_options`: a tool without options gets the empty payload.
abbrev pub validate_options :
    Option (Options → Option Options) → Options → Result AppException Options
validate_options none options = ok []
validate_options (some model) options = accepted (model options)

abbrev pub found_or_missing : Option StoredFile → Result AppException StoredFile
found_or_missing none = err file_not_found_app_error
found_or_missing (some f) = ok f

-- The checks of one input file.
pub validate_input :
    ToolService → PlanLimits → List StoredFile → Option ℕ → ℕ → Result AppException StoredFile
unfolding get_active member
validate_input tool limits files user_id file_id = do
  f ← found_or_missing (get_active files file_id user_id)
  raise_if (not (member f.extension tool.allowed_input_extensions)) unsupported_file_type_error
  raise_if (ltb (max_file_size_bytes limits) f.size_bytes) (file_too_large_error per_file)
  ok f

pub validate_each :
    ToolService
    → PlanLimits
    → List StoredFile
    → Option ℕ
    → List ℕ
    → Result AppException (List StoredFile)
unfolding validate_input
validate_each tool limits files user_id [] = ok []
validate_each tool limits files user_id (file_id ∷ file_ids) = do
  f ← validate_input tool limits files user_id file_id
  fs ← validate_each tool limits files user_id file_ids
  ok (f ∷ fs)

abbrev pub total_size : List StoredFile → ℕ
total_size [] = 0
total_size (f ∷ fs) = f.size_bytes + total_size fs

-- `_validate_inputs`
unfoldable pub validate_inputs :
    ToolService
    → List StoredFile
    → List ℕ
    → Option ℕ
    → Option Text
    → Result AppException (List StoredFile)
unfolding validate_each limits_for_plan
validate_inputs tool files file_ids user_id plan = do
  raise_if
      (not
        (leb tool.min_input_files (length file_ids) && leb (length file_ids) tool.max_input_files))
      validation_error
  raise_if (ltb (limits_for_plan plan).max_files (length file_ids)) validation_error
  input_files ← validate_each tool (limits_for_plan plan) files user_id file_ids
  raise_if (ltb (max_total_size_bytes (limits_for_plan plan)) (total_size input_files))
      (file_too_large_error combined)
  ok input_files

-- The source of the session's first visit, "Direct" without one.
abbrev non_empty_or : Text → Text → Text
non_empty_or [] other = other
non_empty_or (c ∷ t) other = c ∷ t

pub session_source : List PageVisit → Option Text → Text
session_source visits none = codes "Direct"
session_source [] (some session_id) = codes "Direct"
session_source (v ∷ vs) (some session_id) =
    let rest = session_source vs (some session_id) in
    if is_empty session_id
    then codes "Direct"
    else if text_eq v.session_id session_id
    then non_empty_or v.source (codes "Direct")
    else rest

-- Whether the visitor has been seen before.
abbrev pub seen_before : List PageVisit → Option Text → Bool
seen_before visits none = false
seen_before visits (some visitor_id) =
    not (is_empty visitor_id) && any (λ v. text_eq v.visitor_id visitor_id) visits

pub visit_of : List PageVisit → Client → Visit
unfolding session_source parse_user_agent detect_country
visit_of visits client =
    let (os_name, device_type, browser_name) = parse_user_agent client.user_agent in
    record {
      visitor_id = client.visitor_id;
      session_id = client.session_id;
      device = device_type;
      browser = browser_name;
      os = os_name;
      country = detect_country client.accept_lang client.cf_country;
      source = session_source visits client.session_id;
      is_returning = seen_before visits client.visitor_id;
    }

-- One INPUT link for each file, with its position.
pub input_links : ℕ → ℕ → List StoredFile → List JobFile
input_links job_id position [] = []
input_links job_id position (f ∷ fs) =
    record { job_id = job_id; file_id = f.id; role = JobFileRole.input; position = position }
    ∷ input_links job_id (suc position) fs

-- The job as it is committed before the dispatch: QUEUED, with its task id.
pub queued_job : ToolService → List PageVisit → Client → Options → ℕ → ℕ → ℕ → ℕ → ProcessingJob
unfolding visit_of
queued_job tool visits client options now retention task_id id = record {
  id = id;
  tool = tool.slug;
  status = JobStatus.queued;
  progress = 0;
  options = options;
  celery_task_id = some task_id;
  user_id = client.user_id;
  error_code = none;
  error_message = none;
  started_at = none;
  finished_at = none;
  expires_at = some (now + retention);
  visit = visit_of visits client;
}

abbrev pub unavailable_message : Text
unavailable_message = codes "The processing queue is unavailable. Try again later."

abbrev pub undispatched : ProcessingJob → ℕ → ProcessingJob
undispatched job now = record job {
  status = JobStatus.failed;
  error_code = some ErrorCode.service_unavailable;
  error_message = some unavailable_message;
  finished_at = some now;
}

-- The tables behind the commit that precedes the dispatch.
abbrev pub with_job : Db → ProcessingJob → List StoredFile → Db
with_job db job input_files = record db {
  jobs = db.jobs ++ job ∷ [];
  links = db.links ++ input_links job.id 0 input_files;
  next_id = suc job.id;
}

-- Behind the dispatch. It is a parameter: `some db` are the tables behind it (a worker may have run
-- by then), `none` is any exception, which leaves the tables as they were.
abbrev pub dispatched : ProcessingJob → ℕ → Db → Option Db → ProcessingJob × Db
dispatched job later db (some db') = (job, db')
dispatched job later db none =
    (undispatched job later, record db { jobs = put_job (undispatched job later) db.jobs })

-- `create_job`: the job returned and the new tables. The clock is read at `now`, and again at `later`
-- if the dispatch fails.
unfoldable pub create_job :
    (ℕ → Db → Option Db)
    → ToolService
    → List PageVisit
    → Client
    → ℕ
    → ℕ
    → ℕ
    → ℕ
    → Db
    → List ℕ
    → Options
    → Result AppException (ProcessingJob × Db)
unfolding validate_inputs queued_job input_links
create_job dispatch tool visits client now later retention task_id db file_ids options = do
  validated ← validate_options tool.options_model options
  input_files ← validate_inputs tool db.files file_ids client.user_id client.plan
  ok (
      let job = queued_job tool visits client validated now retention task_id db.next_id in
      let db' = with_job db job input_files in dispatched job later db' (dispatch job.id db'))
