-- ===== src/Constants.antt =====
-- The shared enumerations (app/constants/__init__.py).
use tools_backend.Base.{Bool, true, false}

pub data FileStatus : Type 0 where
  active expired deleted : FileStatus

pub data FileCategory : Type 0 where
  upload processed thumbnail : FileCategory

pub data JobStatus : Type 0 where
  pending queued processing completed failed cancelled expired : JobStatus

-- `JobStatus.is_terminal`
abbrev pub is_terminal : JobStatus → Bool
is_terminal JobStatus.completed = true
is_terminal JobStatus.failed = true
is_terminal JobStatus.cancelled = true
is_terminal JobStatus.expired = true
is_terminal JobStatus.pending = false
is_terminal JobStatus.queued = false
is_terminal JobStatus.processing = false

pub data JobFileRole : Type 0 where
  input output : JobFileRole

pub data UserStatus : Type 0 where
  active suspended inactive : UserStatus

pub data ErrorCode : Type 0 where
  internal_server_error bad_request validation_error unauthorized : ErrorCode
  forbidden not_found conflict rate_limited service_unavailable : ErrorCode
  file_too_large too_many_files unsupported_file_type file_corrupted : ErrorCode
  file_not_found file_expired storage_error : ErrorCode
  job_not_found job_not_completed job_already_finished : ErrorCode
  processing_failed processing_timeout : ErrorCode
  feedback_daily_limit captcha_invalid : ErrorCode

abbrev pub file_status_is_active : FileStatus → Bool
file_status_is_active FileStatus.active = true
file_status_is_active FileStatus.expired = false
file_status_is_active FileStatus.deleted = false

abbrev pub is_input : JobFileRole → Bool
is_input input = true
is_input output = false

abbrev pub is_output : JobFileRole → Bool
is_output input = false
is_output output = true
