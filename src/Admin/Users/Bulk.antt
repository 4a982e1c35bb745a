-- ===== src/Admin/Users/Bulk.antt =====
-- The accounts behind a bulk change of status (`bulk_users` of app/services/admin.py).
use tools_backend.Base.{
  ℕ, ◌≡◌, refl, ◌⊎◌, inl, inr, Bool, true, false, some, List, [], ◌∷◌, arith, if◌then◌else◌,
  is_empty, ok, Text, codes, text_eq,
}
use tools_backend.Admin.Rows.{User, find_row}
use tools_backend.Admin.Tables.{Tables, user_id_of, erase_users}
use tools_backend.Admin.Users.{changes_status, with_status, set_all, bulk_users, active, suspended}

abbrev pub set_in : List ℕ → Text → User → User
set_in ids status u = if changes_status ids status u then with_status status u else u

-- The row of an account behind a bulk change of status.
pub find_row-set_all :
    (ids : List ℕ) (status : Text) (users : List User) (key : ℕ) (u : User)
    → find_row user_id_of key users ≡ some u
    → find_row user_id_of key (set_all ids status users) ≡ some (set_in ids status u)
unfolding set_all
find_row-set_all ids status [] key u found = cc
find_row-set_all ids status (v ∷ vs) key u found =
    ground (arith, find_row-set_all ids status vs key u)

if-eq {ℓ} :
    {A : Type ℓ} (b : Bool) {x y z : A}
    → (if b then x else y) ≡ z
    → ((b ≡ true) × (x ≡ z)) ⊎ (y ≡ z)
if-eq true h = inl (refl, h)
if-eq false h = inr h

-- The tables behind a bulk action that returns, by action.
pub bulk_users-outcome :
    (t : Tables) {t' : Tables} (action : Text) (ids : List ℕ) {affected : ℕ}
    → bulk_users t action ids ≡ ok (t', affected)
    → (t' ≡ t)
      ⊎ (((text_eq action (codes "delete") ≡ true) × (t' ≡ erase_users ids t))
          ⊎ (((text_eq action (codes "suspend") ≡ true)
                × (t' ≡ record t { users = set_all ids suspended t.users }))
              ⊎ (t' ≡ record t { users = set_all ids active t.users })))
unfolding bulk_users
bulk_users-outcome t action ids h = elim (if-eq (is_empty ids) h) [
  | inl (_, e) ↦ inl (cc)
  | inr h1 ↦ elim (if-eq (text_eq action (codes "delete")) h1) [
    | inl (b, e) ↦ inr (inl (b, cc))
    | inr h2 ↦ elim (if-eq (text_eq action (codes "suspend")) h2) [
      | inl (b, e) ↦ inr (inr (inl (b, cc)))
      | inr h3 ↦ elim (if-eq (text_eq action (codes "activate")) h3) [
        | inl (b, e) ↦ inr (inr (inr (cc)))
        | inr unknown ↦ cc
      ]
    ]
  ]
]
