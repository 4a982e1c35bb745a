-- ===== src/Feedback/Limit.antt =====
-- The daily limit of the feedback form (app/services/feedback.py, app/repositories/feedback.py).
use tools_backend.Admin.Rows.{Feedback}
