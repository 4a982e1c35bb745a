-- ===== src/Pages/Operations/Delete.antt =====
-- Deleting pages (`delete_pages` of app/utils/pdf_pages.py).
use tools_backend.Base.{
  zero, suc, ◌≤◌, ◌<◌, ◌≡◌, refl, ◌∙◌, true, arith, leb, if◌then◌else◌, ok, ◌>>◌, raise_if,
  raise_if-eq-ok, List, Text, ℕ, [], length, none, ◌∷◌, ◌+◌,
}
use tools_backend.Pages.Pypdf.{Pypdf}
use tools_backend.Pages.Operations.{delete_pages, open_pdf, distinct, add_unless}
use tools_backend.Pages.Operations.Written.{written-add_unless, drop_numbered}
use tools_backend.Pages.Selection.{every_page_deleted, parse_page_selection}
use tools_backend.Base.Integers.{eq_ℤ→eq, ℤ, member_ℤ, pos, negsuc}

-- How many of the numbers `from`, `from + 1`, ... (`n` of them) are in the list.
abbrev hits : List ℤ → ℕ → ℕ → ℕ
hits xs from zero = 0
hits xs from (suc n) =
    let rest = hits xs (suc from) n in if member_ℤ (pos from) xs then suc rest else rest

hits-nil : (from n : ℕ) → hits [] from n ≡ 0
unfolding member_ℤ
hits-nil from zero = refl
hits-nil from (suc n) = hits-nil (suc from) n

hits_past :
    (x : ℤ) (xs : List ℤ) (from n : ℕ) (k : ℕ)
    → x ≡ pos k
    → k < from
    → hits (x ∷ xs) from n ≡ hits xs from n
unfolding member_ℤ
hits_past x xs from zero k e h = refl
hits_past x xs from (suc n) k e h = ground (arith, hits_past x xs (suc from) n k)

hits-cons : (x : ℤ) (xs : List ℤ) (from n : ℕ) → hits (x ∷ xs) from n ≤ suc (hits xs from n)
unfolding member_ℤ
hits-cons x xs from zero = omega arith
hits-cons (pos k) xs from (suc n) =
    ground (arith, hits-cons (pos k) xs (suc from) n, hits_past (pos k) xs (suc from) n k)
hits-cons (negsuc k) xs from (suc n) = ground (arith, hits-cons (negsuc k) xs (suc from) n)

hits_again :
    (x : ℤ) (xs : List ℤ) (from n : ℕ)
    → member_ℤ x xs ≡ true
    → hits (x ∷ xs) from n ≡ hits xs from n
unfolding member_ℤ
hits_again x xs from zero h = refl
hits_again x xs from (suc n) h =
    ground (arith, hits_again x xs (suc from) n h, eq_ℤ→eq (pos from) x)

-- A list cannot hold more of these numbers than it has different members.
hits-le-distinct : (xs : List ℤ) (from n : ℕ) → hits xs from n ≤ distinct xs
unfolding distinct
hits-le-distinct [] from n = omega (arith, hits-nil from n)
hits-le-distinct (x ∷ xs) from n =
    ground (arith, hits-le-distinct xs from n, hits-cons x xs from n, hits_again x xs from n)

length-drop_numbered {ℓ} :
    {A : Type ℓ} (xs : List ℤ) (from : ℕ) (ps : List A)
    → length (drop_numbered (λ number. member_ℤ (pos number) xs) from ps) + hits xs from (length ps)
      ≡ length ps
length-drop_numbered xs from [] = refl
length-drop_numbered xs from (p ∷ ps) = ground (arith, length-drop_numbered xs (suc from) ps)

module _ (lib : Pypdf) where
  open lib use {FilePath, Reader, Writer, Page, pages, new_writer, written, written-new}

  -- A deletion that succeeds writes exactly the pages whose number is not in the selection, in
  -- their order, and at least one page.
  pub delete_pages-written :
      (source : FilePath) (spec : Text) (r : Reader) (doomed : List ℤ) (w : Writer)
      → open_pdf lib source none ≡ ok r
      → parse_page_selection spec (length (pages r)) ≡ ok doomed
      → delete_pages lib source spec ≡ ok w
      → (written w ≡ drop_numbered (λ number. member_ℤ (pos number) doomed) 1 (pages r))
        × (0 < length (written w))
  unfolding delete_pages
  delete_pages-written source spec r doomed w opened parsed h =
      let h' : (raise_if (leb (length (pages r)) (distinct doomed)) every_page_deleted
            >> ok (add_unless lib (λ number. member_ℤ (pos number) doomed) 1 new_writer (pages r)))
          ≡ ok w =
        rw (opened, parsed) at h in
      let (some_left, same) = raise_if-eq-ok (leb (length (pages r)) (distinct doomed)) _ _ h' in
      let same' : add_unless lib (λ number. member_ℤ (pos number) doomed) 1 new_writer (pages r)
          ≡ w =
        cc in
      let e : written w ≡ drop_numbered (λ number. member_ℤ (pos number) doomed) 1 (pages r) =
        rw (← same') (written-add_unless lib _ 1 new_writer (pages r) ∙ rw written-new) in
      (
        e,
        rw e (
            ground (
              arith,
              length-drop_numbered doomed 1 (pages r),
              hits-le-distinct doomed 1 (length (pages r)),
            )),
      )
