-- ===== src/Auth/Emails.antt =====
-- How many accounts an e-mail address has, behind each change of the table of accounts
-- (app/services/admin.py, app/services/auth.py).
use tools_backend.Base.{
  ℕ, ◌+◌, ◌≤◌, ◌≡◌, refl, sym, ◌⊎◌, inl, inr, Bool, Option, none, some, List, [], ◌∷◌, ◌++◌, arith,
  ◌==◌, Bool-cases, length, keep_if, ok, Text, text_eq, is_space, strip_by, to_lower, lower,
  text_eq→eq,
}
use tools_backend.Admin.Rows.{User, edit_row}
use tools_backend.Admin.Tables.{user_id_of}
use tools_backend.Admin.Users.{
  normalized, has_email, one_or_none, get_by_email, raise_if_found, set_all,
}

-- No address, whatever its case, belongs to two accounts.
unfoldable pub HasUniqueEmails : List User → Type 0
HasUniqueEmails users = (email : Text) → length (keep_if (has_email email) users) ≤ 1

-- A change of accounts that leaves their addresses alone.
abbrev KeepsEmail : (User → User) → Type 0
KeepsEmail change = (u : User) → (change u).email ≡ u.email

length-keep_if-append {ℓ} :
    {A : Type ℓ} (keep : A → Bool) (xs ys : List A)
    → length (keep_if keep (xs ++ ys)) ≡ length (keep_if keep xs) + length (keep_if keep ys)
length-keep_if-append keep [] ys = omega arith
length-keep_if-append keep (x ∷ xs) ys = ground (arith, length-keep_if-append keep xs ys)

-- Rows that another filter takes out are no longer counted.
length-keep_if-keep_if {ℓ} :
    {A : Type ℓ} (keep other : A → Bool) (xs : List A)
    → length (keep_if keep (keep_if other xs)) ≤ length (keep_if keep xs)
length-keep_if-keep_if keep other [] = omega arith
length-keep_if-keep_if keep other (x ∷ xs) = ground (arith, length-keep_if-keep_if keep other xs)

count-edit_row :
    (email : Text) (key : ℕ) (change : User → User) (users : List User)
    → KeepsEmail change
    → length (keep_if (has_email email) (edit_row user_id_of key change users))
      ≡ length (keep_if (has_email email) users)
count-edit_row email key change [] keeps = refl
count-edit_row email key change (u ∷ us) keeps = elim (Bool-cases (u.id == key)) [
  | inl e ↦ rw (e, keeps u) (ground (arith, count-edit_row email key change us keeps))
  | inr e ↦ rw e (ground (arith, count-edit_row email key change us keeps))
]

count-set_all :
    (email : Text) (ids : List ℕ) (status : Text) (users : List User)
    → length (keep_if (has_email email) (set_all ids status users))
      ≡ length (keep_if (has_email email) users)
unfolding set_all
count-set_all email ids status [] = refl
count-set_all email ids status (u ∷ us) = ground (arith, count-set_all email ids status us)

pub HasUniqueEmails-edit_row :
    (key : ℕ) (change : User → User) (users : List User)
    → KeepsEmail change
    → HasUniqueEmails users
    → HasUniqueEmails (edit_row user_id_of key change users)
unfolding HasUniqueEmails
HasUniqueEmails-edit_row key change users keeps unique email =
    omega (arith, unique email, count-edit_row email key change users keeps)

pub HasUniqueEmails-set_all :
    (ids : List ℕ) (status : Text) (users : List User)
    → HasUniqueEmails users
    → HasUniqueEmails (set_all ids status users)
unfolding HasUniqueEmails
HasUniqueEmails-set_all ids status users unique email =
    omega (arith, unique email, count-set_all email ids status users)

pub HasUniqueEmails-keep_if :
    (keep : User → Bool) (users : List User)
    → HasUniqueEmails users
    → HasUniqueEmails (keep_if keep users)
unfolding HasUniqueEmails
HasUniqueEmails-keep_if keep users unique email =
    omega (arith, unique email, length-keep_if-keep_if (has_email email) keep users)

pub one_or_none-none {ℓ} :
    {A : Type ℓ} (rows : List A) → one_or_none rows ≡ ok none → length rows ≡ 0
one_or_none-none [] h = refl
one_or_none-none (x ∷ []) h = cc
one_or_none-none (x ∷ y ∷ rows) h = cc

to_lower-idempotent : (c : ℕ) → to_lower (to_lower c) ≡ to_lower c
to_lower-idempotent c = ground arith

pub lower-idempotent : (t : Text) → lower (lower t) ≡ lower t
lower-idempotent [] = refl
lower-idempotent (c ∷ t) = rw (to_lower-idempotent c, lower-idempotent t)

-- An account whose address was free joins the table.
pub HasUniqueEmails-snoc :
    (users : List User) (u : User) (email : Text)
    → u.email ≡ normalized email
    → get_by_email users email ≡ ok none
    → HasUniqueEmails users
    → HasUniqueEmails (users ++ u ∷ [])
unfolding HasUniqueEmails get_by_email normalized
HasUniqueEmails-snoc users u email e free unique other =
    elim (Bool-cases (text_eq (lower u.email) other)) [
      | inl same ↦
          rw
            (
              length-keep_if-append (has_email other) users (u ∷ []),
              same,
              sym (text_eq→eq (lower u.email) other same),
              e,
              lower-idempotent (strip_by is_space email),
              one_or_none-none (keep_if (has_email (normalized email)) users) free,
            )
            (omega arith)
      | inr differs ↦
          rw (length-keep_if-append (has_email other) users (u ∷ []), differs)
            (omega (arith, unique other))
    ]

one_or_none-small {ℓ} :
    {A : Type ℓ} (rows : List A)
    → length rows ≤ 1
    → (one_or_none rows ≡ ok none) ⊎ ((x : A) × (one_or_none rows ≡ ok (some x)))
one_or_none-small [] h = inl refl
one_or_none-small (x ∷ []) h = inr (x, refl)
one_or_none-small (x ∷ y ∷ rows) h = absurd (omega arith)

-- With unique addresses, a lookup by address never raises.
pub get_by_email-total :
    (users : List User) (email : Text)
    → HasUniqueEmails users
    → (get_by_email users email ≡ ok none) ⊎ ((u : User) × (get_by_email users email ≡ ok (some u)))
unfolding HasUniqueEmails get_by_email
get_by_email-total users email unique =
    one_or_none-small (keep_if (has_email (normalized email)) users) (unique (normalized email))

pub raise_if_found-eq-ok {ℓ} :
    {A : Type ℓ} (o : Option A) {u : Unit {0}} → raise_if_found o ≡ ok u → o ≡ none
raise_if_found-eq-ok none h = refl
raise_if_found-eq-ok (some x) h = cc
