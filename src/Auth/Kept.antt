-- ===== src/Auth/Kept.antt =====
-- Each call that changes the accounts keeps them sound (app/services/auth.py, app/services/admin.py).
use mathlib.Core.Path.{subst}
use tools_backend.Base.{
  ℕ, suc, ◌≡◌, refl, sym, ap, ◌∙◌, inl, inr, Bool, false, not, none, List, [], ◌∷◌, ◌++◌, ◌==◌, any,
  All-append, Result, ok, err, >>=-eq-ok, raise_if-eq-ok, Text, codes, text_eq,
}
use tools_backend.Exceptions.{AppException}
use tools_backend.Admin.Rows.{User, Subscription, find_row, edit_row, delete_row}
use tools_backend.Admin.Rows.Lookup.{find_row-id, find_row-append}
use tools_backend.Admin.Tables.{Tables, user_id_of, erase_users, insert_user}
use tools_backend.Admin.Users.{
  require-eq-ok, Passwords, UserCreate, UserUpdate, get_by_email, get_user, new_user, create_user,
  update_user, updated, set_user_status, with_status, delete_user, bulk_users, raise_if_found,
  active, suspended, require,
}
use tools_backend.Admin.Users.Bulk.{bulk_users-outcome}
use tools_backend.Admin.Subscriptions.{
  SubscriptionCreate, SubscriptionUpdate, subscription_id_of, create_subscription,
  update_subscription, delete_subscription, updated_subscription, new_subscription,
}
use tools_backend.Auth.{Jwt, Settings, TokenPair, register, token_pair}
use tools_backend.Auth.Emails.{HasUniqueEmails-edit_row, HasUniqueEmails-snoc, raise_if_found-eq-ok}
use tools_backend.Auth.Soundness.{
  Finds, Finds-edit_row, HaveOwners, HaveOwners-edit_row, HaveOwners-keep_if, HaveOwners-mono,
  IsSound, IsSound-erased, IsSound-ok, IsSound-pair, IsSound-session, IsSound-set_all,
  IsSound-subscriptions, IsSound-users,
}

-- The tables behind a call that returns.
abbrev pub tables_of {ℓ} :
    {A : Type ℓ} → Result AppException (Tables × A) → Result AppException Tables
tables_of (ok (t, _)) = ok t
tables_of (err e) = err e

abbrev pub tables_of_session :
    Result AppException (Tables × User × TokenPair) → Result AppException Tables
tables_of_session (ok (t, _, _)) = ok t
tables_of_session (err e) = err e

pub tables_of-eq-ok {ℓ} :
    {A : Type ℓ} (r : Result AppException (Tables × A)) {t : Tables}
    → tables_of r ≡ ok t
    → (a : A) × (r ≡ ok (t, a))
tables_of-eq-ok (ok (t, a)) h = (a, cc)
tables_of-eq-ok (err e) h = cc

module _ (passwords : Passwords) where
  -- A new account keeps the tables sound when its address had no account.
  IsSound-insert :
      (t : Tables) {t' : Tables} (name email password plan : Text) (is_admin : Bool)
      → get_by_email t.users email ≡ ok none
      → insert_user (new_user passwords t name email password plan is_admin) t ≡ ok t'
      → IsSound t
      → IsSound t'
  unfolding IsSound insert_user Finds
  IsSound-insert t name email password plan is_admin free h (unique, owners) =
      let user = new_user passwords t name email password plan is_admin in
      let users = t.users ++ user ∷ [] in
      let (_, e) =
        raise_if-eq-ok (any (λ v. text_eq v.email user.email) t.users) AppException.database_error
          (ok (record t { users = users; next_id = suc t.next_id })) h in
      IsSound-ok (record t { users = users; next_id = suc t.next_id }) e
        (
          HasUniqueEmails-snoc t.users user email refl free unique,
          HaveOwners-mono t.users users t.subscriptions
              (λ key (u, found). (u, find_row-append user_id_of key t.users (user ∷ []) u found))
              owners,
        )

  pub IsSound-create_user :
      (t : Tables) {t' : Tables} (payload : UserCreate) {u : User}
      → create_user passwords t payload ≡ ok (t', u)
      → IsSound t
      → IsSound t'
  unfolding create_user
  IsSound-create_user t payload h sound =
      let user =
        new_user passwords t payload.name payload.email payload.password payload.plan
          payload.is_admin in
      let (exists, found, h1) = >>=-eq-ok (get_by_email t.users payload.email) _ h in
      let (_, free, h2) = >>=-eq-ok (raise_if_found exists) _ h1 in
      let (t1, inserted, h3) = >>=-eq-ok (insert_user user t) _ h2 in
      IsSound-pair t1 user h3 (
        IsSound-insert t payload.name payload.email payload.password payload.plan payload.is_admin
          (found ∙ ap ok (raise_if_found-eq-ok exists free)) inserted sound)

  pub IsSound-update_user :
      (t : Tables) {t' : Tables} (user_id : ℕ) (payload : UserUpdate) {u : User}
      → update_user passwords t user_id payload ≡ ok (t', u)
      → IsSound t
      → IsSound t'
  unfolding update_user IsSound
  IsSound-update_user t user_id payload h sound =
      let (u, _, h1) = >>=-eq-ok (get_user t user_id) _ h in
      let users = edit_row user_id_of user_id (updated passwords payload) t.users in
      IsSound-pair (record t { users = users }) (updated passwords payload u) h1
        (IsSound-users t users
          (HasUniqueEmails-edit_row user_id (updated passwords payload) t.users (λ v. refl) sound.0)
          (Finds-edit_row user_id (updated passwords payload) t.users (λ v. refl)) sound)

tables_of_session-eq-ok :
    (r : Result AppException (Tables × User × TokenPair)) {t : Tables}
    → tables_of_session r ≡ ok t
    → (u : User) × (pair : TokenPair) × (r ≡ ok (t, u, pair))
tables_of_session-eq-ok (ok (t, u, pair)) h = (u, pair, cc)
tables_of_session-eq-ok (err e) h = cc

module _ (passwords : Passwords) (jwt : Jwt) (settings : Settings) where
  pub IsSound-register :
      (t : Tables) {t' : Tables} (jtis : Text × Text) (name email password : Text)
      → tables_of_session (register passwords jwt settings t jtis name email password) ≡ ok t'
      → IsSound t
      → IsSound t'
  unfolding register
  IsSound-register t jtis name email password h sound =
      let (_, _, h0) =
        tables_of_session-eq-ok (register passwords jwt settings t jtis name email password) h in
      let user = new_user passwords t name email password (codes "free") false in
      let (exists, found, h1) = >>=-eq-ok (get_by_email t.users email) _ h0 in
      let (_, free, h2) = >>=-eq-ok (raise_if_found exists) _ h1 in
      let (t1, inserted, h3) = >>=-eq-ok (insert_user user t) _ h2 in
      IsSound-session t1 user (token_pair jwt settings t.now jtis user.id) h3 (
        IsSound-insert passwords t name email password (codes "free") false
          (found ∙ ap ok (raise_if_found-eq-ok exists free)) inserted sound)

pub IsSound-set_user_status :
    (t : Tables) {t' : Tables} (user_id : ℕ) (status : Text) {u : User}
    → set_user_status t user_id status ≡ ok (t', u)
    → IsSound t
    → IsSound t'
unfolding set_user_status IsSound
IsSound-set_user_status t user_id status h sound =
    let (u, _, h1) = >>=-eq-ok (get_user t user_id) _ h in
    let users = edit_row user_id_of user_id (with_status status) t.users in
    IsSound-pair (record t { users = users }) (with_status status u) h1
      (IsSound-users t users
        (HasUniqueEmails-edit_row user_id (with_status status) t.users (λ v. refl) sound.0)
        (Finds-edit_row user_id (with_status status) t.users (λ v. refl)) sound)

pub IsSound-delete_user :
    (t : Tables) {t' : Tables} (user_id : ℕ)
    → delete_user t user_id ≡ ok t'
    → IsSound t
    → IsSound t'
unfolding delete_user
IsSound-delete_user t user_id h sound =
    let (u, _, h1) = >>=-eq-ok (get_user t user_id) _ h in
    IsSound-ok (erase_users (user_id ∷ []) t) h1 (IsSound-erased (user_id ∷ []) t sound)

pub IsSound-bulk_users :
    (t : Tables) {t' : Tables} (action : Text) (ids : List ℕ) {affected : ℕ}
    → bulk_users t action ids ≡ ok (t', affected)
    → IsSound t
    → IsSound t'
IsSound-bulk_users t action ids h sound = elim (bulk_users-outcome t action ids h) [
  | inl e ↦ subst IsSound (sym e) sound
  | inr (inl (_, e)) ↦ subst IsSound (sym e) (IsSound-erased ids t sound)
  | inr (inr (inl (_, e))) ↦ subst IsSound (sym e) (IsSound-set_all ids suspended t sound)
  | inr (inr (inr e)) ↦ subst IsSound (sym e) (IsSound-set_all ids active t sound)
]

pub IsSound-create_subscription :
    (t : Tables) {t' : Tables} (payload : SubscriptionCreate) {s : Subscription}
    → create_subscription t payload ≡ ok (t', s)
    → IsSound t
    → IsSound t'
unfolding create_subscription IsSound HaveOwners get_user
IsSound-create_subscription t payload h sound =
    let (u, found, h1) = >>=-eq-ok (get_user t payload.user_id) _ h in
    let sub = new_subscription t u.id payload in
    let row = require-eq-ok (find_row user_id_of payload.user_id t.users) found in
    let same = find_row-id user_id_of payload.user_id t.users u row in
    let subs = t.subscriptions ++ sub ∷ [] in
    IsSound-pair (record t { subscriptions = subs; next_id = suc t.next_id }) sub h1
      (IsSound-subscriptions t subs (suc t.next_id)
        (All-append _ t.subscriptions (sub ∷ []) sound.1
          ((u, ap (λ k. find_row user_id_of k t.users) same ∙ row), tt))
        sound)

pub IsSound-update_subscription :
    (t : Tables) {t' : Tables} (sub_id : ℕ) (payload : SubscriptionUpdate) {s : Subscription}
    → update_subscription t sub_id payload ≡ ok (t', s)
    → IsSound t
    → IsSound t'
unfolding update_subscription IsSound
IsSound-update_subscription t sub_id payload h sound =
    let (s, _, h1) = >>=-eq-ok (require (find_row subscription_id_of sub_id t.subscriptions)) _ h in
    let subs = edit_row subscription_id_of sub_id (updated_subscription payload) t.subscriptions in
    IsSound-pair (record t { subscriptions = subs }) (updated_subscription payload s) h1
      (IsSound-subscriptions t subs t.next_id
        (HaveOwners-edit_row t.users sub_id payload t.subscriptions sound.1) sound)

pub IsSound-delete_subscription :
    (t : Tables) {t' : Tables} (sub_id : ℕ)
    → delete_subscription t sub_id ≡ ok t'
    → IsSound t
    → IsSound t'
unfolding delete_subscription IsSound
IsSound-delete_subscription t sub_id h sound =
    let (s, _, h1) = >>=-eq-ok (require (find_row subscription_id_of sub_id t.subscriptions)) _ h in
    let subs = delete_row subscription_id_of sub_id t.subscriptions in
    IsSound-ok (record t { subscriptions = subs }) h1
      (IsSound-subscriptions t subs t.next_id
        (HaveOwners-keep_if t.users (λ r. not (r.id == sub_id)) t.subscriptions sound.1) sound)
