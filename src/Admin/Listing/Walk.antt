-- ===== src/Admin/Listing/Walk.antt =====
-- Walking through all pages of a list (app/common/pagination.py, app/dependencies/pagination.py).
use tools_backend.Base.{ℕ, zero, suc, Bool, List, [], ◌++◌, keep_if}
use mathlib.Core.List.{Permᴰ}
use mathlib.Core.List.Permᴰ
use tools_backend.Sorting.{IsSorted}
use tools_backend.Admin.Listing.{page_of, list_rows}

-- The pages of a given size from the first to the n-th, one after the other.
abbrev pub first_pages {ℓ} : {A : Type ℓ} → ℕ → ℕ → List A → List A
first_pages size zero rows = []
first_pages size (suc n) rows =
    first_pages size n rows ++ page_of (record { page = suc n; size = size }) rows

module _ {ℓ} {A : Type ℓ} (rank : A → ℕ) (answer : ℕ → List A → List A) (size : ℕ)
    (matches : A → Bool) (rows : List A) where
  -- What a client sees that asks for the first n pages, one after the other. Each page is a query of
  -- its own, with the order that the database gives the rows in that query.
  abbrev pub walk : ℕ → List A
  walk zero = []
  walk (suc n) =
      walk n ++ (list_rows (answer (suc n)) (record { page = suc n; size = size }) matches rows).0

  -- A query gives the matching rows back, sorted by the sort expression.
  abbrev pub IsAnswer : List A → Type ℓ
  IsAnswer xs = Permᴰ xs (keep_if matches rows) × IsSorted rank xs
