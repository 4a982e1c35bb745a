-- ===== src/Pages/Operations/Numbers.antt =====
-- The page numbers 1, 2, ... of a document (app/utils/pdf_pages.py).
use tools_backend.Base.{
  ℕ, zero, suc, ◌+◌, ◌≡◌, refl, some, List, [], ◌∷◌, ◌++◌, map, append_assoc, arith, length, All,
  length-snoc, get_elem?-middle,
}
use tools_backend.Base.Integers.{pos, count_up}
use tools_backend.Pages.Operations.{page_at}
use tools_backend.Pages.Selection.Bounds.{IsPageOf}

-- Looking up the numbers k + 1, k + 2, ... gives the pages from the k-th on.
pub page_at-count_up {ℓ} :
    {A : Type ℓ} (front back : List A)
    → map (page_at (front ++ back)) (count_up (length back) (pos (suc (length front))))
      ≡ map some back
unfolding count_up
page_at-count_up front [] = refl
page_at-count_up front (p ∷ ps) =
    let later = rw (append_assoc, length-snoc front p) at (page_at-count_up (front ++ p ∷ []) ps) in
    rw (get_elem?-middle front p ps, later)

pub count_up-IsPageOf :
    (total n k : ℕ) → k + n ≡ total → All (IsPageOf total) (count_up n (pos (suc k)))
unfolding count_up
count_up-IsPageOf total zero k e = tt
count_up-IsPageOf total (suc n) k e =
    ((k, refl, omega arith), count_up-IsPageOf total n (suc k) (omega arith))
