-- ===== src/Pages/Operations/Reorder.antt =====
-- Reordering pages (`reorder_pages` of app/utils/pdf_pages.py).
use tools_backend.Base.{
  ℕ, ◌≡◌, refl, inl, inr, true, not, some, List, [], ◌∷◌, map, arith, Bool-cases, length, ok, All,
  none, Option, raise_if, ◌>>◌, ◌∙◌, raise_if-eq-ok,
}
use mathlib.Core.List.{Perm, filter_map, filter_map-map, filter_map-some}
use mathlib.Core.List.Perm
use tools_backend.Base.Integers.{ℤ, eq_ℤ→eq, leb_ℤ, sorted, insert_sorted}
use tools_backend.Pages.Pypdf.{Pypdf}
use tools_backend.Pages.Operations.{
  add_numbered, page_at, one_to, eq_list, is_permutation, reorder_pages, open_pdf,
}
use tools_backend.Pages.Operations.Numbers.{page_at-count_up, count_up-IsPageOf}
use tools_backend.Pages.Operations.Extract.{write_selection}
use tools_backend.Pages.Selection.{not_a_permutation}
use tools_backend.Pages.Selection.Bounds.{IsPageOf}

insert_sorted-perm : (x : ℤ) (ys : List ℤ) → Perm (insert_sorted x ys) (x ∷ ys)
unfolding insert_sorted
insert_sorted-perm x [] = Perm.refl _
insert_sorted-perm x (y ∷ ys) = elim (Bool-cases (leb_ℤ x y)) [
  | inl before ↦ rw before (Perm.refl _)
  | inr after ↦ rw after (Perm.trans (Perm.cons y (insert_sorted-perm x ys)) (Perm.swap x y ys))
]

sorted-perm : (xs : List ℤ) → Perm (sorted xs) xs
unfolding sorted
sorted-perm [] = Perm.refl []
sorted-perm (x ∷ xs) = Perm.trans (insert_sorted-perm x (sorted xs)) (Perm.cons x (sorted-perm xs))

eq_list→eq : (xs ys : List ℤ) → eq_list xs ys ≡ true → xs ≡ ys
eq_list→eq [] [] h = refl
eq_list→eq [] (y ∷ ys) h = cc
eq_list→eq (x ∷ xs) [] h = cc
eq_list→eq (x ∷ xs) (y ∷ ys) h = ground (arith, eq_ℤ→eq x y, eq_list→eq xs ys)

pub is_permutation-perm :
    (order : List ℤ) (total : ℕ) → is_permutation order total ≡ true → Perm order (one_to total)
unfolding is_permutation
is_permutation-perm order total h =
    rw (← eq_list→eq (sorted order) (one_to total) h) (Perm.symm (sorted-perm order))

module _ {ℓ} (P : ℤ → Type ℓ) where
  All-insert_sorted : (x : ℤ) (ys : List ℤ) → All P (insert_sorted x ys) → P x × All P ys
  unfolding insert_sorted
  All-insert_sorted x [] h = h
  All-insert_sorted x (y ∷ ys) h = elim (Bool-cases (leb_ℤ x y)) [
    | inl before ↦ rw before at h
    | inr after ↦
        let (py, rest) = rw after at h in
        let (px, pys) = All-insert_sorted x ys rest in (px, (py, pys))
  ]

  All-sorted : (xs : List ℤ) → All P (sorted xs) → All P xs
  unfolding sorted
  All-sorted [] h = tt
  All-sorted (x ∷ xs) h =
      let (px, rest) = All-insert_sorted x (sorted xs) h in (px, All-sorted xs rest)

permutation-IsPageOf :
    (order : List ℤ) (total : ℕ) → is_permutation order total ≡ true → All (IsPageOf total) order
unfolding is_permutation
permutation-IsPageOf order total h = All-sorted (IsPageOf total) order (
    rw (eq_list→eq (sorted order) (one_to total) h) (count_up-IsPageOf total total 0 (omega arith)))

same_behind_some {ℓ} :
    {A : Type ℓ} (xs : List A) → filter_map (λ (o : Option A). o) (map some xs) ≡ xs
same_behind_some xs = filter_map-map _ _ xs ∙ filter_map-some xs

-- Two lists of pages that are permutations of each other behind `some`.
perm_of_map_some {ℓ} : {A : Type ℓ} (xs ys : List A) → Perm (map some xs) (map some ys) → Perm xs ys
perm_of_map_some {A} xs ys p =
    rw (same_behind_some xs, same_behind_some ys) at (Perm.filter_map (λ (o : Option A). o) p)

module _ (lib : Pypdf) where
  open lib use {FilePath, Reader, Writer, Page, pages, new_writer, written}

  -- A reordering that succeeds writes the pages in the given order: a permutation of the pages of
  -- the document, none lost and none repeated.
  pub reorder_pages-perm :
      (source : FilePath) (order : List ℤ) (r : Reader) (w : Writer)
      → open_pdf lib source none ≡ ok r
      → reorder_pages lib source order ≡ ok w
      → Perm (written w) (pages r) × (map some (written w) ≡ map (page_at (pages r)) order)
  unfolding reorder_pages
  reorder_pages-perm source order r w opened h =
      let total = length (pages r) in
      let h' : (raise_if (not (is_permutation order total)) not_a_permutation
            >> add_numbered lib new_writer r order)
          ≡ ok w =
        rw opened at h in
      let (fits, rest) = raise_if-eq-ok (not (is_permutation order total)) _ _ h' in
      let valid : is_permutation order total ≡ true = ground arith in
      let (w', done, same) = write_selection lib r order (permutation-IsPageOf order total valid) in
      let e : w' ≡ w = cc in
      let looked_up : map some (written w) ≡ map (page_at (pages r)) order = rw (← e) same in
      (
        perm_of_map_some _ _ (
            rw (looked_up, ← page_at-count_up [] (pages r))
              (Perm.map (page_at (pages r)) (is_permutation-perm order total valid))),
        looked_up,
      )
