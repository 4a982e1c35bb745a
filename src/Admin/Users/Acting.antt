-- ===== src/Admin/Users/Acting.antt =====
-- Which accounts may act as administrators, behind the changes of the table of accounts
-- (app/dependencies/admin.py, app/services/admin.py).
use mathlib.Core.Path.{subst}
use tools_backend.Base.{
  ℕ, ◌≡◌, refl, ap, ◌∙◌, inl, inr, true, false, not, some, List, arith, ◌==◌, ==_iff, Bool-cases,
  Result, ok, Text, text_eq,
}
use tools_backend.Exceptions.{AppException}
use tools_backend.Admin.Rows.{User, find_row, edit_row}
use tools_backend.Admin.Rows.Lookup.{
  find_row-edit_row, find_row-edit_row_ne, find_row-keep_if, find_row-id,
}
use tools_backend.Admin.Tables.{Tables, user_id_of, is_one_of, erase_users}
use tools_backend.Admin.Users.{with_status, set_all, changes_status, active, suspended}
use tools_backend.Admin.Users.Bulk.{find_row-set_all}

-- An account of this identifier passes the checks of `get_current_admin`.
unfoldable pub CanAct : ℕ → List User → Type 0
CanAct key users =
    (u : User) × (find_row user_id_of key users ≡ some u)
    × (u.is_admin ≡ true)
    × (text_eq u.status suspended ≡ false)

pub CanAct-ok :
    (key : ℕ) (r : Tables) {t : Tables}
    → ◌≡◌ {A = Result AppException Tables} (ok r) (ok t)
    → CanAct key r.users
    → CanAct key t.users
CanAct-ok key r {t = t} e acts = subst (λ x. CanAct key x.users) {x = r} {y = t} (cc) acts

pub CanAct-pair {ℓ} :
    {A : Type ℓ} (key : ℕ) (r : Tables) (a : A) {t : Tables} {b : A}
    → ◌≡◌ {A = Result AppException (Tables × A)} (ok (r, a)) (ok (t, b))
    → CanAct key r.users
    → CanAct key t.users
CanAct-pair key r a {t = t} e acts = subst (λ x. CanAct key x.users) {x = r} {y = t} (cc) acts

-- A change of the status of another account.
pub CanAct-other :
    (key other : ℕ) (status : Text) (users : List User)
    → (other == key) ≡ false
    → CanAct key users
    → CanAct key (edit_row user_id_of other (with_status status) users)
unfolding CanAct
CanAct-other key other status users differs (u, found, admin, open_account) = (
  u,
  find_row-edit_row_ne user_id_of other key (with_status status) users (λ w. refl)
        (λ e. ground arith)
      ∙ found,
  admin,
  open_account,
)

pub CanAct-activated :
    (key other : ℕ) (users : List User)
    → CanAct key users
    → CanAct key (edit_row user_id_of other (with_status active) users)
unfolding CanAct
CanAct-activated key other users (u, found, admin, open_account) =
    elim (Bool-cases (other == key)) [
      | inl same ↦ rw ((==_iff other key).0 same) (
        with_status active u,
        find_row-edit_row user_id_of key (with_status active) users u (λ w. refl) found,
        admin,
        refl,
      )
      | inr differs ↦ (
        u,
        find_row-edit_row_ne user_id_of other key (with_status active) users (λ w. refl)
              (λ e. ground arith)
            ∙ found,
        admin,
        open_account,
      )
    ]

-- A deletion of other accounts.
pub CanAct-erased :
    (key : ℕ) (keys : List ℕ) (t : Tables)
    → is_one_of keys key ≡ false
    → CanAct key t.users
    → CanAct key (erase_users keys t).users
unfolding CanAct erase_users
CanAct-erased key keys t out (u, found, admin, open_account) = (
  u,
  find_row-keep_if user_id_of key (λ v. not (is_one_of keys v.id)) t.users u found
      (ap (λ k. not (is_one_of keys k)) (find_row-id user_id_of key t.users u found) ∙ ap not out),
  admin,
  open_account,
)

pub CanAct-set_all_out :
    (key : ℕ) (ids : List ℕ) (status : Text) (users : List User)
    → is_one_of ids key ≡ false
    → CanAct key users
    → CanAct key (set_all ids status users)
unfolding CanAct
CanAct-set_all_out key ids status users out (u, found, admin, open_account) =
    let same = find_row-id user_id_of key users u found in
    (u, find_row-set_all ids status users key u found ∙ rw (same, out) refl, admin, open_account)

pub CanAct-set_all_active :
    (key : ℕ) (ids : List ℕ) (users : List User)
    → CanAct key users
    → CanAct key (set_all ids active users)
unfolding CanAct
CanAct-set_all_active key ids users (u, found, admin, open_account) =
    elim (Bool-cases (changes_status ids active u)) [
      | inl changes ↦ (
        with_status active u,
        find_row-set_all ids active users key u found ∙ rw changes refl,
        admin,
        refl,
      )
      | inr stays ↦
          (u, find_row-set_all ids active users key u found ∙ rw stays refl, admin, open_account)
    ]
