-- ===== src/Pages/Operations/Written.antt =====
-- The pages that each loop of app/utils/pdf_pages.py puts into the written file.
use tools_backend.Base.{
  ℕ, suc, Bool, some, List, [], ◌∷◌, ◌++◌, map, ◌≡◌, refl, append_assoc, append-nil, ok,
  if◌then◌else◌, ◌∙◌, sym, All, length, get_elem?-lt, Bool-cases, inl, inr, map-append,
}
use tools_backend.Base.Integers.{ℤ}
use tools_backend.Pages.Selection.Bounds.{IsPageOf}
use tools_backend.Pages.Pypdf.{Pypdf}
use tools_backend.Pages.Operations.{page_at, add_numbered, add_unless, add_rotated}

-- `f` at each item with its number, counted from `n`.
abbrev pub map_numbered {ℓ κ} : {A : Type ℓ} {B : Type κ} → (ℕ → A → B) → ℕ → List A → List B
map_numbered f n [] = []
map_numbered f n (x ∷ xs) = f n x ∷ map_numbered f (suc n) xs

-- The items whose number fails the test, in their order.
abbrev pub drop_numbered {ℓ} : {A : Type ℓ} → (ℕ → Bool) → ℕ → List A → List A
drop_numbered test n [] = []
drop_numbered test n (x ∷ xs) =
    let rest = drop_numbered test (suc n) xs in if test n then rest else x ∷ rest

module _ (lib : Pypdf) where
  open lib use {
    FilePath, Reader, Writer, Page, read, pages, rotate, add_page, append, written,
    written-add_page, written-append,
  }

  -- Page numbers in range are all found.
  pub written-add_numbered :
      (r : Reader) (numbers : List ℤ) (w : Writer)
      → All (IsPageOf (length (pages r))) numbers
      → (w' : Writer) × (add_numbered lib w r numbers ≡ ok w')
        × (map some (written w') ≡ map some (written w) ++ map (page_at (pages r)) numbers)
  unfolding add_numbered
  written-add_numbered r [] w h = (w, refl, sym (append-nil _))
  written-add_numbered r (number ∷ numbers) w ((n, e, lt), h) =
      let (p, found) = get_elem?-lt (pages r) n lt in
      let (w', done, same) = written-add_numbered r numbers (add_page w p) h in
      (
        w',
        rw (e, found) done,
        same ∙ (rw (e, found) (simp (written-add_page, map-append, append_assoc))),
      )

  pub written-add_unless :
      (doomed : ℕ → Bool) (n : ℕ) (w : Writer) (ps : List Page)
      → written (add_unless lib doomed n w ps) ≡ written w ++ drop_numbered doomed n ps
  unfolding add_unless
  written-add_unless doomed n w [] = sym (append-nil _)
  written-add_unless doomed n w (p ∷ ps) = elim (Bool-cases (doomed n)) [
    | inl yes' ↦ rw yes' (written-add_unless doomed (suc n) w ps)
    | inr no' ↦ rw no' (
        written-add_unless doomed (suc n) (add_page w p) ps ∙ simp (written-add_page, append_assoc))
  ]

  pub written-add_rotated :
      (matches : ℕ → Bool) (angle : ℤ) (n : ℕ) (w : Writer) (ps : List Page)
      → written (add_rotated lib matches angle n w ps)
        ≡ written w ++ map_numbered (λ k p. if matches k then rotate angle p else p) n ps
  unfolding add_rotated
  written-add_rotated matches angle n w [] = sym (append-nil _)
  written-add_rotated matches angle n w (p ∷ ps) =
      written-add_rotated matches angle (suc n)
        (add_page w (if matches n then rotate angle p else p)) ps
      ∙ simp (written-add_page, append_assoc)
