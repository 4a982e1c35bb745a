-- ===== src/Admin/Users/Endpoints.antt =====
-- The endpoints that change accounts (app/api/v1/endpoints/admin/users.py), for the administrator
-- that the dependency has let in. The response, `user_detail` of the account, is not modelled.
use tools_backend.Base.{
  ℕ, Bool, ◌&&◌, ◌||◌, Option, none, some, List, ◌++◌, ◌==◌, Result, ok, raise_if, Text, codes,
  text_eq, ◌>>=◌,
}
use tools_backend.Base.Digits.{str}
use tools_backend.Exceptions.{AppException}
use tools_backend.Json.{empty}
use tools_backend.Admin.Rows.{User}
use tools_backend.Admin.Tables.{Tables, is_one_of}
use tools_backend.Admin.Audit.{Entry, audit}
use tools_backend.Admin.Users.{
  Passwords, UserCreate, UserUpdate, get_user, create_user, update_user, set_user_status,
  delete_user, bulk_users, active, suspended,
}

abbrev pub no_text : Option Text
no_text = none

-- An entry about one account; the identifier is written as its text.
abbrev pub about_user : Text → Text → Text → ℕ → Option Text → Entry
about_user action summary category user_id ip = record {
  action = action;
  summary = summary;
  category = category;
  entity_type = some (codes "user");
  entity_id = some (str user_id);
  ip = ip;
  meta = empty;
}

abbrev pub about_bulk : Text → ℕ → Option Text → Entry
about_bulk action count ip = record {
  action = codes "user.bulk_" ++ action;
  summary = codes "Bulk " ++ action ++ codes " on " ++ str count ++ codes " user(s)";
  category = codes "security";
  entity_type = no_text;
  entity_id = no_text;
  ip = ip;
  meta = empty;
}

-- `payload.action in {"delete", "suspend"}`
abbrev pub locks_out : Text → Bool
locks_out action = text_eq action (codes "delete") || text_eq action (codes "suspend")

module _ (admin : User) (ip : Option Text) where
  unfoldable pub suspend_user : Tables → ℕ → Result AppException Tables
  unfolding set_user_status audit
  suspend_user t user_id = do
    guard ← raise_if (user_id == admin.id) AppException.bad_request_error
    (t', user) ← set_user_status t user_id suspended
    ok (
        audit t' admin (
          about_user (codes "user.suspend") (codes "Suspended user " ++ user.email)
            (codes "security") user.id ip))

  unfoldable pub activate_user : Tables → ℕ → Result AppException Tables
  unfolding set_user_status audit
  activate_user t user_id = do
    (t', user) ← set_user_status t user_id active
    ok (
        audit t' admin (
          about_user (codes "user.activate") (codes "Activated user " ++ user.email) (codes "audit")
            user.id ip))

  unfoldable pub remove_user : Tables → ℕ → Result AppException Tables
  unfolding get_user delete_user audit
  remove_user t user_id = do
    guard ← raise_if (user_id == admin.id) AppException.bad_request_error
    user ← get_user t user_id
    t' ← delete_user t user_id
    ok (
        audit t' admin (
          about_user (codes "user.delete") (codes "Deleted user " ++ user.email) (codes "security")
            user_id ip))

  unfoldable pub bulk_action : Tables → Text → List ℕ → Result AppException (Tables × ℕ)
  unfolding bulk_users audit
  bulk_action t action ids = do
    guard ← raise_if (is_one_of ids admin.id && locks_out action) AppException.bad_request_error
    (t', count) ← bulk_users t action ids
    ok (audit t' admin (about_bulk action count ip), count)

module _ (passwords : Passwords) (admin : User) (ip : Option Text) where
  unfoldable pub add_user : Tables → UserCreate → Result AppException Tables
  unfolding create_user audit
  add_user t payload = do
    (t', user) ← create_user passwords t payload
    ok (
        audit t' admin (
          about_user (codes "user.create") (codes "Created user " ++ user.email) (codes "audit")
            user.id ip))

  unfoldable pub patch_user : Tables → ℕ → UserUpdate → Result AppException Tables
  unfolding update_user audit
  patch_user t user_id payload = do
    (t', user) ← update_user passwords t user_id payload
    ok (
        audit t' admin (
          about_user (codes "user.update") (codes "Updated user " ++ user.email) (codes "audit")
            user.id ip))
