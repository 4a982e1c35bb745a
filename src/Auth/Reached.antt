-- ===== src/Auth/Reached.antt =====
-- What holds of the accounts after any sequence of registrations and administrative changes
-- (app/services/auth.py, app/services/admin.py).

use tools_backend.Base.{ℕ, ◌≡◌, List, Result, ok, Text}
use tools_backend.Exceptions.{AppException}
use tools_backend.Admin.Tables.{Tables}
use tools_backend.Admin.Users.{
  Passwords, UserCreate, UserUpdate, create_user, update_user, set_user_status, delete_user,
  bulk_users,
}
use tools_backend.Admin.Subscriptions.{
  SubscriptionCreate, SubscriptionUpdate, create_subscription, update_subscription,
  delete_subscription,
}
use tools_backend.Auth.{Jwt, Settings, register}
use tools_backend.Auth.Soundness.{IsSound}
use tools_backend.Auth.Kept.{
  tables_of, tables_of_session, tables_of-eq-ok, IsSound-create_user, IsSound-update_user,
  IsSound-register, IsSound-set_user_status, IsSound-delete_user, IsSound-bulk_users,
  IsSound-create_subscription, IsSound-update_subscription, IsSound-delete_subscription,
}

-- The calls that change the accounts or their subscriptions.
pub data Request : Type 0 where
  registering : Text × Text → Text → Text → Text → Request
  creating : UserCreate → Request
  updating : ℕ → UserUpdate → Request
  setting_status : ℕ → Text → Request
  deleting : ℕ → Request
  bulk : Text → List ℕ → Request
  subscribing : SubscriptionCreate → Request
  changing_subscription : ℕ → SubscriptionUpdate → Request
  unsubscribing : ℕ → Request

module _ (passwords : Passwords) (jwt : Jwt) (settings : Settings) where
  unfoldable pub handle : Request → Tables → Result AppException Tables
  unfolding register create_user update_user set_user_status delete_user bulk_users
      create_subscription update_subscription delete_subscription
  handle (registering jtis name email password) t =
      tables_of_session (register passwords jwt settings t jtis name email password)
  handle (creating payload) t = tables_of (create_user passwords t payload)
  handle (updating user_id payload) t = tables_of (update_user passwords t user_id payload)
  handle (setting_status user_id status) t = tables_of (set_user_status t user_id status)
  handle (deleting user_id) t = delete_user t user_id
  handle (bulk action ids) t = tables_of (bulk_users t action ids)
  handle (subscribing payload) t = tables_of (create_subscription t payload)
  handle (changing_subscription sub_id payload) t = tables_of (update_subscription t sub_id payload)
  handle (unsubscribing sub_id) t = delete_subscription t sub_id

-- The tables that a sequence of calls leads to.
pub data Reach (passwords : Passwords) (jwt : Jwt) (settings : Settings) (t : Tables)
    : Tables → Type 0 where
  start : Reach passwords jwt settings t t
  after :
      {u v : Tables} (request : Request)
      → Reach passwords jwt settings t u
      → handle passwords jwt settings request u ≡ ok v
      → Reach passwords jwt settings t v

module _ (passwords : Passwords) (jwt : Jwt) (settings : Settings) where
  IsSound-handle :
      (request : Request) (t : Tables) {t' : Tables}
      → handle passwords jwt settings request t ≡ ok t'
      → IsSound t
      → IsSound t'
  unfolding handle
  IsSound-handle (registering jtis name email password) t h sound =
      IsSound-register passwords jwt settings t jtis name email password h sound
  IsSound-handle (creating payload) t h sound =
      IsSound-create_user passwords t payload (tables_of-eq-ok _ h).1 sound
  IsSound-handle (updating user_id payload) t h sound =
      IsSound-update_user passwords t user_id payload (tables_of-eq-ok _ h).1 sound
  IsSound-handle (setting_status user_id status) t h sound =
      IsSound-set_user_status t user_id status (tables_of-eq-ok _ h).1 sound
  IsSound-handle (deleting user_id) t h sound = IsSound-delete_user t user_id h sound
  IsSound-handle (bulk action ids) t h sound =
      IsSound-bulk_users t action ids (tables_of-eq-ok _ h).1 sound
  IsSound-handle (subscribing payload) t h sound =
      IsSound-create_subscription t payload (tables_of-eq-ok _ h).1 sound
  IsSound-handle (changing_subscription sub_id payload) t h sound =
      IsSound-update_subscription t sub_id payload (tables_of-eq-ok _ h).1 sound
  IsSound-handle (unsubscribing sub_id) t h sound = IsSound-delete_subscription t sub_id h sound

  -- After any sequence of successful registrations, account changes, bulk actions and subscription
  -- changes that starts from sound tables, no address (whatever its case) has two accounts and no
  -- subscription is without an account.
  pub Reach-IsSound : {t t' : Tables} → Reach passwords jwt settings t t' → IsSound t → IsSound t'
  Reach-IsSound start sound = sound
  Reach-IsSound (after request reached e) sound =
      IsSound-handle request _ e (Reach-IsSound reached sound)
