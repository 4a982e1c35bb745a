-- ===== src/Admin/Support.antt =====
-- Feedback, contact messages, error logs, tools (app/services/admin.py).
use tools_backend.Base.{
  ℕ, Bool, true, not, Option, none, some, List, [], ◌∷◌, if◌then◌else◌, keep_if, Result, ok, Text,
  text_eq, ◌>>=◌,
}
use tools_backend.Exceptions.{AppException}
use tools_backend.Jobs.Rows.{ProcessingJob}
use tools_backend.Admin.Rows.{
  Feedback, ContactMessage, ErrorLog, ToolConfig, find_row, edit_row, delete_row,
}
use tools_backend.Admin.Users.{require, given, count_if}

abbrev pub feedback_id_of : Feedback → ℕ
feedback_id_of f = f.id

unfoldable pub delete_feedback : ℕ → List Feedback → Result AppException (List Feedback)
delete_feedback id rows = do
  f ← require (find_row feedback_id_of id rows)
  ok (delete_row feedback_id_of id rows)

abbrev pub message_id_of : ContactMessage → ℕ
message_id_of m = m.id

unfoldable pub get_message : ℕ → List ContactMessage → Result AppException ContactMessage
get_message id rows = require (find_row message_id_of id rows)

unfoldable pub mark_message_read :
    ℕ → Bool → List ContactMessage → Result AppException (List ContactMessage)
unfolding get_message
mark_message_read id read rows = do
  m ← get_message id rows
  ok (edit_row message_id_of id (λ r. record r { is_read = read }) rows)

abbrev pub replied : ℕ → Text → ContactMessage → ContactMessage
replied now reply m = record m { reply = some reply; replied_at = some now; is_read = true }

unfoldable pub reply_message :
    ℕ → ℕ → Text → List ContactMessage → Result AppException (List ContactMessage)
unfolding get_message
reply_message now id reply rows = do
  m ← get_message id rows
  ok (edit_row message_id_of id (replied now reply) rows)

unfoldable pub delete_message : ℕ → List ContactMessage → Result AppException (List ContactMessage)
unfolding get_message
delete_message id rows = do m ← get_message id rows; ok (delete_row message_id_of id rows)

unfoldable pub unread_message_count : List ContactMessage → ℕ
unread_message_count rows = count_if (λ m. not m.is_read) rows

abbrev pub error_id_of : ErrorLog → ℕ
error_id_of e = e.id

unfoldable pub resolve_error : ℕ → Bool → List ErrorLog → Result AppException (List ErrorLog)
resolve_error id resolved rows = do
  e ← require (find_row error_id_of id rows)
  ok (edit_row error_id_of id (λ r. record r { resolved = resolved }) rows)

unfoldable pub delete_error : ℕ → List ErrorLog → Result AppException (List ErrorLog)
delete_error id rows = do
  e ← require (find_row error_id_of id rows)
  ok (delete_row error_id_of id rows)

-- The rows that stay, and the number of those deleted.
unfoldable pub clear_resolved_errors : List ErrorLog → List ErrorLog × ℕ
clear_resolved_errors rows = (keep_if (λ e. not e.resolved) rows, count_if (λ e. e.resolved) rows)

-- `select(ToolConfig).where(ToolConfig.slug == slug)`; the column is unique
unfoldable pub find_tool : Text → List ToolConfig → Option ToolConfig
find_tool slug [] = none
find_tool slug (t ∷ rows) =
    let rest = find_tool slug rows in if text_eq t.slug slug then some t else rest

pub record ToolUpdate : Type 0 where
  pub enabled : Option Bool
  pub visible : Option Bool
  pub maintenance : Option Bool
  pub file_limit_mb : Option ℕ

abbrev pub changed_tool : ToolUpdate → ToolConfig → ToolConfig
changed_tool payload t = record t {
  enabled = given payload.enabled t.enabled;
  visible = given payload.visible t.visible;
  maintenance = given payload.maintenance t.maintenance;
  file_limit_mb = given payload.file_limit_mb t.file_limit_mb;
}

unfoldable pub update_tool :
    Text → ToolUpdate → List ToolConfig → Result AppException (List ToolConfig × ToolConfig)
unfolding find_tool
update_tool slug payload rows = do
  tool ← require (find_tool slug rows)
  ok (edit_row (λ t. t.id) tool.id (changed_tool payload) rows, changed_tool payload tool)

-- The usage count of a tool in `list_tools`
unfoldable pub tool_usage : List ProcessingJob → ToolConfig → ℕ
tool_usage jobs t = count_if (λ j. text_eq j.tool t.slug) jobs
