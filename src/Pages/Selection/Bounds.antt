-- ===== src/Pages/Selection/Bounds.antt =====
-- What a successful selection guarantees (`parse_page_selection` of app/utils/pdf_pages.py).
use tools_backend.Base.{
  ℕ, zero, suc, ◌<◌, false, List, [], ◌∷◌, ◌≡◌, refl, ◌≢◌, arith, any, Text, split, All, ok,
  >>=-eq-ok, raise_if-eq-ok,
}
use tools_backend.Base.Integers.{ℤ, pos, negsuc}
use tools_backend.Pages.Selection.{
  out_of_range, parse_parts, checked, without_spaces, parse_page_selection,
}

-- A 1-based page number of a document with `total` pages.
abbrev pub IsPageOf : ℕ → ℤ → Type 0
IsPageOf total p = (n : ℕ) × (p ≡ pos (suc n)) × (n < total)

in_range : (total : ℕ) (p : ℤ) → out_of_range total p ≡ false → IsPageOf total p
in_range total (pos zero) h = ground arith
in_range total (pos (suc n)) h = (n, refl, ground arith)
in_range total (negsuc n) h = ground arith

every_in_range :
    (total : ℕ) (ps : List ℤ) → any (out_of_range total) ps ≡ false → All (IsPageOf total) ps
every_in_range total [] h = tt
every_in_range total (p ∷ ps) h =
    (in_range total p (ground arith), every_in_range total ps (ground arith))

checked-IsPageOf :
    (total : ℕ) (pages ps : List ℤ)
    → checked total pages ≡ ok ps
    → (ps ≢ []) × All (IsPageOf total) ps
checked-IsPageOf total [] ps h = cc
checked-IsPageOf total (p ∷ pages) ps h =
    let (good, same) = raise_if-eq-ok (any (out_of_range total) (p ∷ pages)) _ _ h in
    let e : p ∷ pages ≡ ps = cc in rw (← e) (λ empty. cc, every_in_range total (p ∷ pages) good)

-- Whatever the selection text: a parse that succeeds returns at least one page, and only numbers of
-- pages that the document has.
pub parse_page_selection-IsPageOf :
    (spec : Text) (total : ℕ) (ps : List ℤ)
    → parse_page_selection spec total ≡ ok ps
    → (ps ≢ []) × All (IsPageOf total) ps
unfolding parse_page_selection
parse_page_selection-IsPageOf spec total ps h =
    let (pages, parsed, rest) = >>=-eq-ok (parse_parts (split b',' (without_spaces spec))) _ h in
    checked-IsPageOf total pages ps rest
