-- ===== src/Auth/Soundness.antt =====
-- Sound tables: no address has two accounts, and no subscription is without one (app/models/user.py,
-- app/models/admin.py).
use mathlib.Core.Path.{subst}
use tools_backend.Base.{
  ℕ, ◌≡◌, sym, ap, ◌∙◌, inl, inr, Bool, not, some, List, [], ◌∷◌, arith, ◌==◌, ==_iff, Bool-cases,
  keep_if, All, Result, ok, Text,
}
use tools_backend.Exceptions.{AppException}
use tools_backend.Admin.Rows.{User, Subscription, find_row, edit_row}
use tools_backend.Admin.Rows.Lookup.{
  find_row-id, find_row-edit_row, find_row-edit_row_ne, find_row-keep_if,
}
use tools_backend.Admin.Tables.{Tables, user_id_of, is_one_of, erase_users}
use tools_backend.Admin.Users.{set_all}
use tools_backend.Admin.Users.Bulk.{set_in, find_row-set_all}
use tools_backend.Admin.Subscriptions.{SubscriptionUpdate, subscription_id_of, updated_subscription}
use tools_backend.Auth.{TokenPair}
use tools_backend.Auth.Emails.{HasUniqueEmails, HasUniqueEmails-set_all, HasUniqueEmails-keep_if}

-- Every subscription belongs to an account.
unfoldable pub HaveOwners : List User → List Subscription → Type 0
HaveOwners users subs = All (λ s. (u : User) × (find_row user_id_of s.user_id users ≡ some u)) subs

-- No address has two accounts, and no subscription is without an account.
unfoldable pub IsSound : Tables → Type 0
IsSound t = HasUniqueEmails t.users × HaveOwners t.users t.subscriptions

unfoldable pub Finds : List User → ℕ → Type 0
Finds users key = (u : User) × (find_row user_id_of key users ≡ some u)

pub HaveOwners-mono :
    (users others : List User) (subs : List Subscription)
    → ((key : ℕ) → Finds users key → Finds others key)
    → HaveOwners users subs
    → HaveOwners others subs
unfolding HaveOwners Finds
HaveOwners-mono users others [] mono _ = tt
HaveOwners-mono users others (s ∷ subs) mono (owner, owners) =
    (mono s.user_id owner, HaveOwners-mono users others subs mono owners)

pub Finds-edit_row :
    (key : ℕ) (change : User → User) (users : List User)
    → ((u : User) → (change u).id ≡ u.id)
    → (other : ℕ) → Finds users other
    → Finds (edit_row user_id_of key change users) other
unfolding Finds
Finds-edit_row key change users keeps other (u, found) = elim (Bool-cases (other == key)) [
  | inl same ↦ rw ((==_iff other key).0 same) (
    change u,
    find_row-edit_row user_id_of key change users u keeps
        (ap (λ k. find_row user_id_of k users) (sym ((==_iff other key).0 same)) ∙ found),
  )
  | inr differs ↦
      (u, find_row-edit_row_ne user_id_of key other change users keeps (λ e. ground arith) ∙ found)
]

pub Finds-set_all :
    (ids : List ℕ) (status : Text) (users : List User) (key : ℕ)
    → Finds users key
    → Finds (set_all ids status users) key
unfolding Finds
Finds-set_all ids status users key (u, found) =
    (set_in ids status u, find_row-set_all ids status users key u found)

pub HaveOwners-erased :
    (keys : List ℕ) (users : List User) (subs : List Subscription)
    → HaveOwners users subs
    → HaveOwners
        (keep_if (λ u. not (is_one_of keys u.id)) users)
        (keep_if (λ s. not (is_one_of keys s.user_id)) subs)
unfolding HaveOwners
HaveOwners-erased keys users [] owners = tt
HaveOwners-erased keys users (s ∷ subs) ((u, found), owners) =
    elim (Bool-cases (not (is_one_of keys s.user_id))) [
      | inl kept ↦ rw kept (
        (
          u,
          find_row-keep_if user_id_of s.user_id (λ v. not (is_one_of keys v.id)) users u found
              (ap (λ k. not (is_one_of keys k)) (find_row-id user_id_of s.user_id users u found)
                ∙ kept),
        ),
        HaveOwners-erased keys users subs owners,
      )
      | inr gone ↦ rw gone (HaveOwners-erased keys users subs owners)
    ]

-- The accounts changed, with no address and no owner lost.
pub IsSound-users :
    (t : Tables) (users : List User)
    → HasUniqueEmails users
    → ((key : ℕ) → Finds t.users key → Finds users key)
    → IsSound t
    → IsSound (record t { users = users })
unfolding IsSound
IsSound-users t users unique mono (_, owners) =
    (unique, HaveOwners-mono t.users users t.subscriptions mono owners)

pub IsSound-ok :
    (r : Tables) {t : Tables}
    → ◌≡◌ {A = Result AppException Tables} (ok r) (ok t)
    → IsSound r
    → IsSound t
IsSound-ok r {t = t} e sound = subst IsSound {x = r} {y = t} (cc) sound

pub IsSound-pair {ℓ} :
    {A : Type ℓ} (r : Tables) (a : A) {t : Tables} {b : A}
    → ◌≡◌ {A = Result AppException (Tables × A)} (ok (r, a)) (ok (t, b))
    → IsSound r
    → IsSound t
IsSound-pair r a {t = t} e sound = subst IsSound {x = r} {y = t} (cc) sound

pub IsSound-session :
    (r : Tables) (a : User) (p : TokenPair) {t : Tables} {b : User} {q : TokenPair}
    → ◌≡◌ {A = Result AppException (Tables × User × TokenPair)} (ok (r, a, p)) (ok (t, b, q))
    → IsSound r
    → IsSound t
IsSound-session r a p {t = t} e sound = subst IsSound {x = r} {y = t} (cc) sound

pub IsSound-erased : (keys : List ℕ) (t : Tables) → IsSound t → IsSound (erase_users keys t)
unfolding IsSound erase_users
IsSound-erased keys t (unique, owners) = (
  HasUniqueEmails-keep_if (λ u. not (is_one_of keys u.id)) t.users unique,
  HaveOwners-erased keys t.users t.subscriptions owners,
)

pub IsSound-set_all :
    (ids : List ℕ) (status : Text) (t : Tables)
    → IsSound t
    → IsSound (record t { users = set_all ids status t.users })
unfolding IsSound
IsSound-set_all ids status t sound =
    IsSound-users t (set_all ids status t.users)
      (HasUniqueEmails-set_all ids status t.users sound.0) (Finds-set_all ids status t.users) sound

pub HaveOwners-edit_row :
    (users : List User) (key : ℕ) (payload : SubscriptionUpdate) (subs : List Subscription)
    → HaveOwners users subs
    → HaveOwners users (edit_row subscription_id_of key (updated_subscription payload) subs)
unfolding HaveOwners
HaveOwners-edit_row users key payload [] owners = tt
HaveOwners-edit_row users key payload (s ∷ subs) (owner, owners) = elim (Bool-cases (s.id == key)) [
  | inl e ↦ rw e (owner, HaveOwners-edit_row users key payload subs owners)
  | inr e ↦ rw e (owner, HaveOwners-edit_row users key payload subs owners)
]

pub HaveOwners-keep_if :
    (users : List User) (keep : Subscription → Bool) (subs : List Subscription)
    → HaveOwners users subs
    → HaveOwners users (keep_if keep subs)
unfolding HaveOwners
HaveOwners-keep_if users keep [] owners = tt
HaveOwners-keep_if users keep (s ∷ subs) (owner, owners) = elim (Bool-cases (keep s)) [
  | inl e ↦ rw e (owner, HaveOwners-keep_if users keep subs owners)
  | inr e ↦ rw e (HaveOwners-keep_if users keep subs owners)
]

pub IsSound-subscriptions :
    (t : Tables) (subs : List Subscription) (next : ℕ)
    → HaveOwners t.users subs
    → IsSound t
    → IsSound (record t { subscriptions = subs; next_id = next })
unfolding IsSound
IsSound-subscriptions t subs next owners (unique, _) = (unique, owners)
