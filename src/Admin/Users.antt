-- ===== src/Admin/Users.antt =====
-- The management of accounts (`create_user`, `update_user`, `set_user_status`, `delete_user`,
-- `bulk_users`, `user_stats` and `user_detail` of app/services/admin.py, `get_by_email` of
-- app/repositories/user.py). Hashing is bcrypt's; case is that of the ASCII letters.
pub mod Bulk
pub mod Endpoints
pub mod Acting
pub mod OwnAccount
use tools_backend.Base.{
  ℕ, ◌-◌, ◌/◌, min, ◌≡◌, ap, Bool, ◌&&◌, not, Option, none, some, List, [], ◌∷◌, map, ◌==◌,
  if◌then◌else◌, length, set, keep_if, is_empty, Result, ok, err, raise_if, Text, codes, text_eq,
  is_space, strip_by, lower, ◌>>=◌, ◌>>◌,
}
use mathlib.Core.Option
use tools_backend.Exceptions.{AppException}
use tools_backend.Admin.Rows.{User, Subscription, AdminAuditLog, find_row, edit_row}
use tools_backend.Admin.Tables.{Tables, user_id_of, is_one_of, erase_users, insert_user}
use tools_backend.Jobs.Rows.{StoredFile, ProcessingJob}

-- `email.strip().lower()`
unfoldable pub normalized : Text → Text
normalized email = lower (strip_by is_space email)

-- `func.lower(User.email) == email`
abbrev pub has_email : Text → User → Bool
has_email email u = text_eq (lower u.email) email

-- `scalar_one_or_none()` raises when there are several rows.
abbrev pub one_or_none {ℓ} : {A : Type ℓ} → List A → Result AppException (Option A)
one_or_none [] = ok none
one_or_none (x ∷ []) = ok (some x)
one_or_none (x ∷ y ∷ rows) = err AppException.database_error

-- `UserRepository.get_by_email`
unfoldable pub get_by_email : List User → Text → Result AppException (Option User)
unfolding normalized
get_by_email users email = one_or_none (keep_if (has_email (normalized email)) users)

-- bcrypt: the hash of a password under the salt that is drawn, and the check against a hash
pub record Passwords : Type 0 where
  pub hash_password : Text → Text
  pub verify_password : Text → Text → Bool

pub record UserCreate : Type 0 where
  pub name : Text
  pub email : Text
  pub password : Text
  pub plan : Text
  pub is_admin : Bool

pub record UserUpdate : Type 0 where
  pub name : Option Text
  pub plan : Option Text
  pub status : Option Text
  pub is_admin : Option Bool
  pub password : Option Text

abbrev pub active : Text
active = codes "active"

abbrev pub suspended : Text
suspended = codes "suspended"

-- `if exists is not None: raise ConflictError(...)`
abbrev pub raise_if_found {ℓ} : {A : Type ℓ} → Option A → Result AppException (Unit {0})
raise_if_found none = ok tt
raise_if_found (some _) = err AppException.conflict_error

-- `if row is None: raise NotFoundError(...)`
abbrev pub require {ℓ} : {A : Type ℓ} → Option A → Result AppException A
require none = err AppException.not_found_error
require (some x) = ok x

pub require-eq-ok {ℓ} : {A : Type ℓ} (o : Option A) {x : A} → require o ≡ ok x → o ≡ some x
require-eq-ok none h = cc
require-eq-ok (some y) h = cc

unfoldable pub get_user : Tables → ℕ → Result AppException User
get_user t user_id = require (find_row user_id_of user_id t.users)

-- What an assignment leaves in a field: `if value is not None: row.field = value`
abbrev pub given {ℓ} : {A : Type ℓ} → Option A → A → A
given none old = old
given (some new) old = new

module _ (passwords : Passwords) where
  abbrev pub new_user : Tables → Text → Text → Text → Text → Bool → User
  new_user t name email password plan is_admin = record {
    id = t.next_id;
    name = strip_by is_space name;
    email = normalized email;
    password_hash = passwords.hash_password password;
    plan = plan;
    avatar = none;
    email_verified_at = none;
    is_admin = is_admin;
    status = active;
    created_at = t.now;
  }

  unfoldable pub create_user : Tables → UserCreate → Result AppException (Tables × User)
  unfolding get_by_email insert_user
  create_user t payload = do
    exists ← get_by_email t.users payload.email
    fresh ← raise_if_found exists
    let user = new_user t payload.name payload.email payload.password payload.plan payload.is_admin
    after ← insert_user user t
    ok (after, user)

  -- `if payload.password: ...`: an empty one changes nothing
  abbrev pub new_hash : Option Text → Text → Text
  new_hash none old = old
  new_hash (some password) old = if is_empty password then old else passwords.hash_password password

  abbrev pub updated : UserUpdate → User → User
  updated payload u = record u {
    name = given (Option.map (strip_by is_space) payload.name) u.name;
    plan = given payload.plan u.plan;
    status = given payload.status u.status;
    is_admin = given payload.is_admin u.is_admin;
    password_hash = new_hash payload.password u.password_hash;
  }

  unfoldable pub update_user : Tables → ℕ → UserUpdate → Result AppException (Tables × User)
  unfolding get_user
  update_user t user_id payload = do
    user ← get_user t user_id
    ok (
      record t { users = edit_row user_id_of user_id (updated payload) t.users },
      updated payload user,
    )

abbrev pub with_status : Text → User → User
with_status status u = record u { status = status }

unfoldable pub set_user_status : Tables → ℕ → Text → Result AppException (Tables × User)
unfolding get_user
set_user_status t user_id status = do
  user ← get_user t user_id
  ok (
    record t { users = edit_row user_id_of user_id (with_status status) t.users },
    with_status status user,
  )

unfoldable pub delete_user : Tables → ℕ → Result AppException Tables
unfolding get_user erase_users
delete_user t user_id = do user ← get_user t user_id; ok (erase_users (user_id ∷ []) t)

-- `User.id.in_(ids)` and a status other than the new one
abbrev pub changes_status : List ℕ → Text → User → Bool
changes_status ids status u = is_one_of ids u.id && not (text_eq u.status status)

unfoldable pub set_all : List ℕ → Text → List User → List User
set_all ids status [] = []
set_all ids status (u ∷ us) =
    let rest = set_all ids status us in
    if changes_status ids status u then with_status status u ∷ rest else u ∷ rest

-- `bulk_users`: the tables behind it, and the number of accounts that it changed
unfoldable pub bulk_users : Tables → Text → List ℕ → Result AppException (Tables × ℕ)
unfolding erase_users set_all
bulk_users t action ids =
    if is_empty ids
    then ok (t, 0)
    else if text_eq action (codes "delete")
    then ok (erase_users ids t, length (keep_if (λ u. is_one_of ids u.id) t.users))
    else if text_eq action (codes "suspend")
    then ok (
      record t { users = set_all ids suspended t.users },
      length (keep_if (changes_status ids suspended) t.users),
    )
    else if text_eq action (codes "activate")
    then ok (
      record t { users = set_all ids active t.users },
      length (keep_if (changes_status ids active) t.users),
    )
    else err AppException.bad_request_error

pub record UserStats : Type 0 where
  pub total : ℕ
  pub active : ℕ
  pub suspended : ℕ
  pub pro : ℕ

abbrev pub count_if {ℓ} : {A : Type ℓ} → (A → Bool) → List A → ℕ
count_if keep rows = length (keep_if keep rows)

unfoldable pub user_stats : Tables → UserStats
user_stats t = record {
  total = length t.users;
  active = count_if (λ u. text_eq u.status active) t.users;
  suspended = count_if (λ u. text_eq u.status suspended) t.users;
  pro = count_if (λ u. not (text_eq u.plan (codes "free"))) t.users;
}
