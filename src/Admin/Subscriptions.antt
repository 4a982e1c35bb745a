-- ===== src/Admin/Subscriptions.antt =====
-- Subscriptions (`create_subscription`, `update_subscription`, `delete_subscription` and
-- `subscription_stats` of app/services/admin.py).
use tools_backend.Base.{
  ℕ, suc, ◌+◌, ◌*◌, Bool, ◌&&◌, Option, none, some, List, [], ◌∷◌, ◌++◌, ◌==◌, if◌then◌else◌,
  keep_if, Result, ok, Text, codes, text_eq, ◌>>=◌,
}
use tools_backend.Exceptions.{AppException}
use tools_backend.Admin.Rows.{Subscription, find_row, edit_row, delete_row}
use tools_backend.Admin.Tables.{Tables}
use tools_backend.Admin.Users.{get_user, require, given, count_if}

abbrev pub subscription_id_of : Subscription → ℕ
subscription_id_of s = s.id

pub record SubscriptionCreate : Type 0 where
  pub user_id : ℕ
  pub plan : Text
  pub price_cents : ℕ
  pub currency : Text
  pub interval : Text
  pub status : Text
  pub renews_at : Option ℕ

pub record SubscriptionUpdate : Type 0 where
  pub plan : Option Text
  pub price_cents : Option ℕ
  pub interval : Option Text
  pub status : Option Text
  pub renews_at : Option ℕ

-- The provider and the number of payments take the defaults of their columns.
abbrev pub new_subscription : Tables → ℕ → SubscriptionCreate → Subscription
new_subscription t user_id payload = record {
  id = t.next_id;
  user_id = user_id;
  plan = payload.plan;
  price_cents = payload.price_cents;
  currency = payload.currency;
  interval = payload.interval;
  status = payload.status;
  provider = codes "razorpay";
  provider_ref = none;
  started_at = some t.now;
  renews_at = payload.renews_at;
  payments_count = 0;
  created_at = t.now;
}

unfoldable pub create_subscription :
    Tables → SubscriptionCreate → Result AppException (Tables × Subscription)
unfolding get_user
create_subscription t payload = do
  user ← get_user t payload.user_id
  let sub = new_subscription t user.id payload
  ok (record t { subscriptions = t.subscriptions ++ sub ∷ []; next_id = suc t.next_id }, sub)

abbrev pub given_time : Option ℕ → Option ℕ → Option ℕ
given_time none old = old
given_time (some new) old = some new

abbrev pub updated_subscription : SubscriptionUpdate → Subscription → Subscription
updated_subscription payload s = record s {
  plan = given payload.plan s.plan;
  price_cents = given payload.price_cents s.price_cents;
  interval = given payload.interval s.interval;
  status = given payload.status s.status;
  renews_at = given_time payload.renews_at s.renews_at;
}

unfoldable pub update_subscription :
    Tables → ℕ → SubscriptionUpdate → Result AppException (Tables × Subscription)
update_subscription t sub_id payload = do
  sub ← require (find_row subscription_id_of sub_id t.subscriptions)
  ok (
    record t {
      subscriptions =
          edit_row subscription_id_of sub_id (updated_subscription payload) t.subscriptions;
    },
    updated_subscription payload sub,
  )

unfoldable pub delete_subscription : Tables → ℕ → Result AppException Tables
delete_subscription t sub_id = do
  sub ← require (find_row subscription_id_of sub_id t.subscriptions)
  ok (record t { subscriptions = delete_row subscription_id_of sub_id t.subscriptions })

pub record SubscriptionStats : Type 0 where
  pub active : ℕ
  pub expired : ℕ
  pub mrr_cents : ℕ
  -- 100 * expired and active + expired, the quotient that the source rounds to one decimal; `none`
  -- when the second is zero
  pub churn : Option (ℕ × ℕ)

-- `coalesce(sum(column), 0)`
abbrev pub sum_by {ℓ} : {A : Type ℓ} → (A → ℕ) → List A → ℕ
sum_by value [] = 0
sum_by value (x ∷ xs) = value x + sum_by value xs

abbrev pub has_status : Text → Subscription → Bool
has_status status s = text_eq s.status status

abbrev pub churn_of : ℕ → ℕ → Option (ℕ × ℕ)
churn_of expired denom = if denom == 0 then none else some (100 * expired, denom)

unfoldable pub subscription_stats : Tables → SubscriptionStats
subscription_stats t =
    let active = count_if (has_status (codes "active")) t.subscriptions in
    let expired = count_if (has_status (codes "expired")) t.subscriptions in
    record {
      active = active;
      expired = expired;
      mrr_cents =
          sum_by (λ s. s.price_cents)
            (keep_if (λ s. has_status (codes "active") s && text_eq s.interval (codes "monthly"))
              t.subscriptions);
      churn = churn_of expired (active + expired);
    }
