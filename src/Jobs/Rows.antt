-- ===== src/Jobs/Rows.antt =====
-- The rows of the database (app/models/file.py, app/models/job.py) and the tables that hold them.
-- Times are numbers of seconds; identifiers, UUIDs in the program, are numbers.
pub mod Lookup
use tools_backend.Base.{
  ℕ, ◌-◌, ◌/◌, ap, Bool, ◌&&◌, Option, none, some, List, [], ◌∷◌, ◌==◌, if◌then◌else◌, keep_if, ok,
  err, Text,
}
use tools_backend.Sorting.{sort_by}
use tools_backend.Constants.{FileStatus, FileCategory, JobStatus, JobFileRole, ErrorCode}

pub record StoredFile : Type 0 where
  pub id : ℕ
  pub original_name : Text
  pub stored_name : Text
  pub category : FileCategory
  pub relative_path : Text
  pub media_type : Text
  pub extension : Text
  pub size_bytes : ℕ
  pub checksum_sha256 : Option Text
  pub status : FileStatus
  pub user_id : Option ℕ
  pub expires_at : Option ℕ

-- The client fields that a job row keeps for the dashboards.
pub record Visit : Type 0 where
  pub visitor_id : Option Text
  pub session_id : Option Text
  pub device : Text
  pub browser : Text
  pub os : Text
  pub country : Text
  pub source : Text
  pub is_returning : Bool

-- A value of the JSON options payload is kept as the text that it renders to.
pub record ProcessingJob : Type 0 where
  pub id : ℕ
  pub tool : Text
  pub status : JobStatus
  pub progress : ℕ
  pub options : List (Text × Text)
  pub celery_task_id : Option ℕ
  pub user_id : Option ℕ
  pub error_code : Option ErrorCode
  pub error_message : Option Text
  pub started_at : Option ℕ
  pub finished_at : Option ℕ
  pub expires_at : Option ℕ
  pub visit : Visit

pub record JobFile : Type 0 where
  pub job_id : ℕ
  pub file_id : ℕ
  pub role : JobFileRole
  pub position : ℕ

-- The tables, each a list of its rows in some order; `next_id` stands for the generator of fresh
-- identifiers.
pub record Db : Type 0 where
  pub jobs : List ProcessingJob
  pub files : List StoredFile
  pub links : List JobFile
  pub next_id : ℕ

abbrev pub find_job : ℕ → List ProcessingJob → Option ProcessingJob
find_job key [] = none
find_job key (j ∷ js) = let rest = find_job key js in if j.id == key then some j else rest

abbrev pub find_file : ℕ → List StoredFile → Option StoredFile
find_file key [] = none
find_file key (f ∷ fs) = let rest = find_file key fs in if f.id == key then some f else rest

-- An update of a row through the session.
abbrev pub put_job : ProcessingJob → List ProcessingJob → List ProcessingJob
put_job j [] = []
put_job j (k ∷ ks) = let rest = put_job j ks in if k.id == j.id then j ∷ rest else k ∷ rest

abbrev pub position_of : JobFile → ℕ
position_of l = l.position

-- `sorted(links, key=lambda link: link.position)`
abbrev pub sort_links : List JobFile → List JobFile
sort_links links = sort_by position_of links

abbrev pub links_of : ℕ → (JobFileRole → Bool) → List JobFile → List JobFile
links_of job_id role links = keep_if (λ l. (l.job_id == job_id) && role l.role) links

abbrev pub add_found : Option StoredFile → List StoredFile → List StoredFile
add_found none rest = rest
add_found (some f) rest = f ∷ rest

-- `[link.file for link in links]`; a foreign key makes every link find its file
abbrev pub files_of : List StoredFile → List JobFile → List StoredFile
files_of files [] = []
files_of files (l ∷ ls) = add_found (find_file l.file_id files) (files_of files ls)
