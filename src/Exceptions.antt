-- ===== src/Exceptions.antt =====
-- The application's exceptions (app/exceptions), each with its error code and HTTP status.
-- Message texts are not modelled; where one class is raised for two limits, the limit is kept.

use tools_backend.Constants.{ErrorCode}

-- Which ceiling an oversized file or batch met: the per-file one or the combined one.
pub data SizeLimit : Type 0 where
  per_file combined : SizeLimit

pub data AppException : Type 0 where
  bad_request_error validation_error unauthorized_error forbidden_error : AppException
  not_found_error conflict_error service_unavailable_error : AppException
  file_too_large_error : SizeLimit → AppException
  too_many_files_error unsupported_file_type_error file_corrupted_error : AppException
  file_not_found_app_error file_expired_error storage_error : AppException
  job_not_found_error job_not_completed_error job_already_finished_error : AppException
  rate_limited_error captcha_invalid_error feedback_daily_limit_error : AppException
  -- an exception of the database or the runtime, which is no `AppException` of the source
  database_error : AppException

unfoldable pub error_code : AppException → ErrorCode
error_code bad_request_error = ErrorCode.bad_request
error_code validation_error = ErrorCode.validation_error
error_code unauthorized_error = ErrorCode.unauthorized
error_code forbidden_error = ErrorCode.forbidden
error_code not_found_error = ErrorCode.not_found
error_code conflict_error = ErrorCode.conflict
error_code service_unavailable_error = ErrorCode.service_unavailable
error_code (file_too_large_error _) = ErrorCode.file_too_large
error_code too_many_files_error = ErrorCode.too_many_files
error_code unsupported_file_type_error = ErrorCode.unsupported_file_type
error_code file_corrupted_error = ErrorCode.file_corrupted
error_code file_not_found_app_error = ErrorCode.file_not_found
error_code file_expired_error = ErrorCode.file_expired
error_code storage_error = ErrorCode.storage_error
error_code job_not_found_error = ErrorCode.job_not_found
error_code job_not_completed_error = ErrorCode.job_not_completed
error_code job_already_finished_error = ErrorCode.job_already_finished
error_code rate_limited_error = ErrorCode.rate_limited
error_code captcha_invalid_error = ErrorCode.captcha_invalid
error_code feedback_daily_limit_error = ErrorCode.feedback_daily_limit
error_code database_error = ErrorCode.internal_server_error
