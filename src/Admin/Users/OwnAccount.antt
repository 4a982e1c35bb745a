-- ===== src/Admin/Users/OwnAccount.antt =====
-- The endpoints' protection of the acting administrator's own account
-- (app/api/v1/endpoints/admin/users.py).
use mathlib.Core.Path.{subst}
use tools_backend.Base.{
  ℕ, suc, ◌≡◌, refl, sym, inl, inr, Bool, true, false, ◌&&◌, ◌||◌, Option, List, [], ◌∷◌, ◌++◌,
  ◌==◌, any, Result, ok, err, >>=-eq-ok, raise_if-eq-ok, Text, codes, text_eq,
}
use tools_backend.Exceptions.{AppException}
use tools_backend.Admin.Rows.{User, edit_row}
use tools_backend.Admin.Rows.Lookup.{find_row-append}
use tools_backend.Admin.Tables.{Tables, user_id_of, is_one_of, erase_users, insert_user}
use tools_backend.Admin.Audit.{audit}
use tools_backend.Admin.Users.{
  Passwords, UserCreate, get_user, new_user, create_user, set_user_status, with_status, delete_user,
  bulk_users, active, suspended, get_by_email, raise_if_found,
}
use tools_backend.Admin.Users.Bulk.{bulk_users-outcome}
use tools_backend.Admin.Users.Endpoints.{
  suspend_user, activate_user, remove_user, bulk_action, add_user, locks_out, about_bulk,
}
use tools_backend.Admin.Users.Acting.{
  CanAct, CanAct-activated, CanAct-erased, CanAct-ok, CanAct-other, CanAct-pair,
  CanAct-set_all_active, CanAct-set_all_out,
}

-- The requests that create, suspend, activate or delete accounts.
pub data AccountRequest : Type 0 where
  suspending : ℕ → AccountRequest
  activating : ℕ → AccountRequest
  removing : ℕ → AccountRequest
  in_bulk : Text → List ℕ → AccountRequest
  adding : UserCreate → AccountRequest

abbrev pub first_of {ℓ} :
    {A : Type ℓ} → Result AppException (Tables × A) → Result AppException Tables
first_of (ok (t, _)) = ok t
first_of (err e) = err e

first_of-eq-ok {ℓ} :
    {A : Type ℓ} (r : Result AppException (Tables × A)) {t : Tables}
    → first_of r ≡ ok t
    → (a : A) × (r ≡ ok (t, a))
first_of-eq-ok (ok (t, a)) h = (a, cc)
first_of-eq-ok (err e) h = cc

module _ (passwords : Passwords) (admin : User) (ip : Option Text) where
  unfoldable pub perform : AccountRequest → Tables → Result AppException Tables
  unfolding suspend_user activate_user remove_user bulk_action add_user
  perform (suspending user_id) t = suspend_user admin ip t user_id
  perform (activating user_id) t = activate_user admin ip t user_id
  perform (removing user_id) t = remove_user admin ip t user_id
  perform (in_bulk action ids) t = first_of (bulk_action admin ip t action ids)
  perform (adding payload) t = add_user passwords admin ip t payload

and-false : (a b : Bool) → (a && b) ≡ false → b ≡ true → a ≡ false
and-false true b h e = cc
and-false false b h e = refl

or-true : (a b : Bool) → b ≡ true → (a || b) ≡ true
or-true true b h = refl
or-true false b h = h

CanAct-bulk_users :
    (key : ℕ) (t : Tables) {t' : Tables} (action : Text) (ids : List ℕ) {count : ℕ}
    → bulk_users t action ids ≡ ok (t', count)
    → (is_one_of ids key && locks_out action) ≡ false
    → CanAct key t.users
    → CanAct key t'.users
CanAct-bulk_users key t action ids h guarded acts = elim (bulk_users-outcome t action ids h) [
  | inl e ↦ subst (λ x. CanAct key x.users) (sym e) acts
  | inr (inl (b, e)) ↦
      subst (λ x. CanAct key x.users) (sym e)
        (CanAct-erased key ids t
          (and-false (is_one_of ids key) (locks_out action) guarded (rw b refl)) acts)
  | inr (inr (inl (b, e))) ↦
      subst (λ x. CanAct key x.users) (sym e)
        (CanAct-set_all_out key ids suspended t.users
          (and-false (is_one_of ids key) (locks_out action) guarded
            (or-true (text_eq action (codes "delete")) (text_eq action (codes "suspend")) b))
          acts)
  | inr (inr (inr e)) ↦
      subst (λ x. CanAct key x.users) (sym e) (CanAct-set_all_active key ids t.users acts)
]

CanAct-set_user_status_ne :
    (key : ℕ) (t : Tables) {t' : Tables} (user_id : ℕ) (status : Text) {u : User}
    → set_user_status t user_id status ≡ ok (t', u)
    → (user_id == key) ≡ false
    → CanAct key t.users
    → CanAct key t'.users
unfolding set_user_status
CanAct-set_user_status_ne key t user_id status h differs acts =
    let (v, _, e) = >>=-eq-ok (get_user t user_id) _ h in
    CanAct-pair key (record t { users = edit_row user_id_of user_id (with_status status) t.users })
      (with_status status v) e (CanAct-other key user_id status t.users differs acts)

CanAct-set_user_status_active :
    (key : ℕ) (t : Tables) {t' : Tables} (user_id : ℕ) {u : User}
    → set_user_status t user_id active ≡ ok (t', u)
    → CanAct key t.users
    → CanAct key t'.users
unfolding set_user_status
CanAct-set_user_status_active key t user_id h acts =
    let (v, _, e) = >>=-eq-ok (get_user t user_id) _ h in
    CanAct-pair key (record t { users = edit_row user_id_of user_id (with_status active) t.users })
      (with_status active v) e (CanAct-activated key user_id t.users acts)

CanAct-delete_user :
    (key : ℕ) (t : Tables) {t' : Tables} (user_id : ℕ)
    → delete_user t user_id ≡ ok t'
    → (user_id == key) ≡ false
    → CanAct key t.users
    → CanAct key t'.users
unfolding delete_user
CanAct-delete_user key t user_id h differs acts =
    let (_, _, e) = >>=-eq-ok (get_user t user_id) _ h in
    CanAct-ok key (erase_users (user_id ∷ []) t) e
      (CanAct-erased key (user_id ∷ []) t (rw differs refl) acts)

CanAct-create_user :
    (passwords : Passwords) (key : ℕ) (t : Tables) {t' : Tables} (payload : UserCreate) {u : User}
    → create_user passwords t payload ≡ ok (t', u)
    → CanAct key t.users
    → CanAct key t'.users
unfolding create_user insert_user CanAct
CanAct-create_user passwords key t payload h (v, found, admin, open_account) =
    let user =
      new_user passwords t payload.name payload.email payload.password payload.plan
        payload.is_admin in
    let (exists, _, h1) = >>=-eq-ok (get_by_email t.users payload.email) _ h in
    let (_, _, h2) = >>=-eq-ok (raise_if_found exists) _ h1 in
    let (t1, inserted, h3) = >>=-eq-ok (insert_user user t) _ h2 in
    let (_, e) =
      raise_if-eq-ok (any (λ w. text_eq w.email user.email) t.users) AppException.database_error
        (ok (record t { users = t.users ++ user ∷ []; next_id = suc t.next_id })) inserted in
    CanAct-pair key t1 user h3 (
      CanAct-ok key (record t { users = t.users ++ user ∷ []; next_id = suc t.next_id }) e
        (v, find_row-append user_id_of key t.users (user ∷ []) v found, admin, open_account))

module _ (passwords : Passwords) (admin : User) (ip : Option Text) where
  -- Creating, suspending, activating or deleting accounts, one by one or in bulk, never takes from
  -- the acting administrator the account that passes the checks of the admin panel.
  pub perform-CanAct :
      (request : AccountRequest) (t t' : Tables)
      → perform passwords admin ip request t ≡ ok t'
      → CanAct admin.id t.users
      → CanAct admin.id t'.users
  unfolding perform suspend_user activate_user remove_user bulk_action add_user audit
  perform-CanAct (suspending user_id) t t' h acts =
      let (differs, h1) = raise_if-eq-ok (user_id == admin.id) AppException.bad_request_error _ h in
      let ((t1, u), e, h2) = >>=-eq-ok (set_user_status t user_id suspended) _ h1 in
      CanAct-ok admin.id _ h2
        (CanAct-set_user_status_ne admin.id t user_id suspended e differs acts)
  perform-CanAct (activating user_id) t t' h acts =
      let ((t1, u), e, h2) = >>=-eq-ok (set_user_status t user_id active) _ h in
      CanAct-ok admin.id _ h2 (CanAct-set_user_status_active admin.id t user_id e acts)
  perform-CanAct (removing user_id) t t' h acts =
      let (differs, h1) = raise_if-eq-ok (user_id == admin.id) AppException.bad_request_error _ h in
      let (u, _, h2) = >>=-eq-ok (get_user t user_id) _ h1 in
      let (t1, e, h3) = >>=-eq-ok (delete_user t user_id) _ h2 in
      CanAct-ok admin.id _ h3 (CanAct-delete_user admin.id t user_id e differs acts)
  perform-CanAct (in_bulk action ids) t t' h acts =
      let (_, h0) = first_of-eq-ok (bulk_action admin ip t action ids) h in
      let (guarded, h1) =
        raise_if-eq-ok (is_one_of ids admin.id && locks_out action) AppException.bad_request_error _
          h0 in
      let ((t1, count), e, h2) = >>=-eq-ok (bulk_users t action ids) _ h1 in
      CanAct-pair admin.id (audit t1 admin (about_bulk action count ip)) count h2
        (CanAct-bulk_users admin.id t action ids e guarded acts)
  perform-CanAct (adding payload) t t' h acts =
      let ((t1, u), e, h1) = >>=-eq-ok (create_user passwords t payload) _ h in
      CanAct-ok admin.id _ h1 (CanAct-create_user passwords admin.id t payload e acts)
