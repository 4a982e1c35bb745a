-- ===== src/Admin/Rows/Lookup.antt =====
-- Finding a row behind a change of a table (app/models/base.py: every table has a primary key).
use tools_backend.Base.{
  ℕ, ◌≡◌, refl, ◌≢◌, Bool, true, none, some, List, [], ◌∷◌, ◌++◌, arith, keep_if,
}
use tools_backend.Admin.Rows.{find_row, edit_row, delete_row}

module _ {ℓ} {A : Type ℓ} (id_of : A → ℕ) where
  pub find_row-id :
      (key : ℕ) (rows : List A) (x : A) → find_row id_of key rows ≡ some x → id_of x ≡ key
  find_row-id key [] x h = cc
  find_row-id key (y ∷ ys) x h = ground (arith, find_row-id key ys x)

  pub find_row-edit_row :
      (key : ℕ) (change : A → A) (rows : List A) (x : A)
      → ((y : A) → id_of (change y) ≡ id_of y)
      → find_row id_of key rows ≡ some x
      → find_row id_of key (edit_row id_of key change rows) ≡ some (change x)
  find_row-edit_row key change [] x keeps h = cc
  find_row-edit_row key change (y ∷ ys) x keeps h =
      ground (arith, keeps y, find_row-edit_row key change ys x keeps)

  pub find_row-edit_row_ne :
      (key other : ℕ) (change : A → A) (rows : List A)
      → ((y : A) → id_of (change y) ≡ id_of y)
      → other ≢ key
      → find_row id_of other (edit_row id_of key change rows) ≡ find_row id_of other rows
  find_row-edit_row_ne key other change [] keeps ne = refl
  find_row-edit_row_ne key other change (y ∷ ys) keeps ne =
      ground (arith, keeps y, find_row-edit_row_ne key other change ys keeps ne)

  pub find_row-delete_row :
      (key : ℕ) (rows : List A) → find_row id_of key (delete_row id_of key rows) ≡ none
  find_row-delete_row key [] = refl
  find_row-delete_row key (y ∷ ys) = ground (arith, find_row-delete_row key ys)

  -- A row that a filter keeps is still found behind it.
  pub find_row-keep_if :
      (key : ℕ) (keep : A → Bool) (rows : List A) (x : A)
      → find_row id_of key rows ≡ some x
      → keep x ≡ true
      → find_row id_of key (keep_if keep rows) ≡ some x
  find_row-keep_if key keep [] x h kept = cc
  find_row-keep_if key keep (y ∷ ys) x h kept = ground (arith, find_row-keep_if key keep ys x)

  pub find_row-append :
      (key : ℕ) (rows more : List A) (x : A)
      → find_row id_of key rows ≡ some x
      → find_row id_of key (rows ++ more) ≡ some x
  find_row-append key [] more x h = cc
  find_row-append key (y ∷ ys) more x h = ground (arith, find_row-append key ys more x)
