-- ===== src/Pages/Operations.antt =====
-- The operations of app/utils/pdf_pages.py over readers and writers.
pub mod Written
pub mod Extract
pub mod Delete
pub mod Numbers
pub mod Split
pub mod Reorder
pub mod Merge
mod Examples
use mathlib.Core.List.{reverse}
use tools_backend.Base.{
  ℕ, zero, suc, ◌+◌, ◌%◌, Bool, true, false, ◌||◌, ◌&&◌, not, Option, none, some, List, [], ◌∷◌,
  ◌++◌, map, leb, if◌then◌else◌, ◌==◌, Text, codes, is_empty, Result, ok, err, raise_if, ◌>>=◌,
  ◌>>◌, length, get_elem?, keep_if,
}
use tools_backend.Base.Digits.{str}
use tools_backend.Base.Integers.{ℤ, pos, negsuc, eq_ℤ, count_up, sorted, member_ℤ}
use tools_backend.Pages.Selection.{
  PagesError, unreadable, password_protected, incorrect_password, no_pages, no_split_mode,
  bad_rotation, every_page_deleted, not_a_permutation, not_protected, index_error,
  parse_page_selection,
}
use tools_backend.Pages.Pypdf.{Pypdf}

-- `pages[number - 1]`; a negative index counts from the end
abbrev pub page_at {ℓ} : {A : Type ℓ} → List A → ℤ → Option A
page_at pages (pos zero) = get_elem? (reverse pages) 0
page_at pages (pos (suc n)) = get_elem? pages n
page_at pages (negsuc n) = get_elem? (reverse pages) (suc n)

-- `angle % 90 != 0 or angle % 360 == 0`; divisibility does not depend on the sign
abbrev magnitude : ℤ → ℕ
magnitude (pos n) = n
magnitude (negsuc n) = suc n

abbrev pub is_bad_angle : ℤ → Bool
is_bad_angle angle = not (magnitude angle % 90 == 0) || (magnitude angle % 360 == 0)

pub data ApplyTo : Type 0 where
  all_pages odd_pages even_pages : ApplyTo

abbrev parity_matches : ApplyTo → ℕ → Bool
parity_matches all_pages number = true
parity_matches odd_pages number = number % 2 == 1
parity_matches even_pages number = number % 2 == 0

abbrev is_selected : Option (List ℤ) → ℕ → Bool
is_selected none number = true
is_selected (some selected) number = member_ℤ (pos number) selected

abbrev pub rotates : Option (List ℤ) → ApplyTo → ℕ → Bool
rotates selected apply_to number = is_selected selected number && parity_matches apply_to number

-- `spec.replace(",", "_")`
abbrev pub label_of : Text → Text
label_of spec = map (λ c. if c == b',' then b'_' else c) spec

-- `list(range(1, n + 1))`
abbrev pub one_to : ℕ → List ℤ
one_to n = count_up n (pos 1)

-- `len(set(xs))`: every value counts at its last occurrence
unfoldable pub distinct : List ℤ → ℕ
distinct [] = 0
distinct (x ∷ xs) = let rest = distinct xs in if member_ℤ x xs then rest else suc rest

-- `sorted(order) != list(range(1, total + 1))`
abbrev eq_list : List ℤ → List ℤ → Bool
eq_list [] [] = true
eq_list [] (_ ∷ _) = false
eq_list (_ ∷ _) [] = false
eq_list (x ∷ xs) (y ∷ ys) = let rest = eq_list xs ys in if eq_ℤ x y then rest else false

pub is_permutation : List ℤ → ℕ → Bool
is_permutation order total = eq_list (sorted order) (one_to total)

abbrev pub every_page_selections : List ℤ → List (Text × List ℤ)
every_page_selections [] = []
every_page_selections (n ∷ ns) = (str (magnitude n), n ∷ []) ∷ every_page_selections ns

pub parse_ranges : List Text → ℕ → Result PagesError (List (Text × List ℤ))
parse_ranges [] total = ok []
parse_ranges (spec ∷ specs) total = do
  pages ← parse_page_selection spec total
  more ← parse_ranges specs total
  ok ((spec, pages) ∷ more)

-- Either every page, or one part for each range; `ranges` may be missing or empty.
pub selections : Option (List Text) → Bool → ℕ → Result PagesError (List (Text × List ℤ))
unfolding parse_ranges
selections ranges true total = ok (every_page_selections (one_to total))
selections none false total = err no_split_mode
selections (some []) false total = err no_split_mode
selections (some (spec ∷ specs)) false total = parse_ranges (spec ∷ specs) total

abbrev parsed_if_given : Option Text → ℕ → Result PagesError (Option (List ℤ))
parsed_if_given none total = ok none
parsed_if_given (some []) total = ok none
parsed_if_given (some (c ∷ spec)) total = do
  pages ← parse_page_selection (c ∷ spec) total
  ok (some pages)

module _ (lib : Pypdf) where
  open lib use {
    FilePath, Reader, Writer, Page, read, is_encrypted, decrypt, pages, rotate, new_writer,
    add_page, append,
  }

  abbrev reader_of : Option Reader → Result PagesError Reader
  reader_of none = err unreadable
  reader_of (some r) = ok r

  abbrev or_empty : Option Text → Text
  or_empty none = []
  or_empty (some password) = password

  abbrev wrong_password : Option Text → PagesError
  wrong_password none = password_protected
  wrong_password (some _) = incorrect_password

  pub open_pdf : FilePath → Option Text → Result PagesError Reader
  open_pdf source password = do
    reader ← reader_of (read source)
    raise_if (is_encrypted reader && (decrypt reader (or_empty password) == 0))
        (wrong_password password)
    raise_if (is_empty (pages reader)) no_pages
    ok reader

  abbrev total_of : Reader → ℕ
  total_of reader = length (pages reader)

  abbrev add_pages : Writer → List Page → Writer
  add_pages w [] = w
  add_pages w (p ∷ ps) = add_pages (add_page w p) ps

  abbrev add_found : Writer → Option Page → Result PagesError Writer
  add_found w none = err index_error
  add_found w (some p) = ok (add_page w p)

  -- `for number in numbers: writer.add_page(reader.pages[number - 1])`
  pub add_numbered : Writer → Reader → List ℤ → Result PagesError Writer
  add_numbered w reader [] = ok w
  add_numbered w reader (number ∷ numbers) = do
    w' ← add_found w (page_at (pages reader) number)
    add_numbered w' reader numbers

  -- `enumerate(reader.pages)` with 1-based numbers, one writer call for each page that is kept
  pub add_unless : (ℕ → Bool) → ℕ → Writer → List Page → Writer
  add_unless doomed number w [] = w
  add_unless doomed number w (p ∷ ps) =
      add_unless doomed (suc number) (if doomed number then w else add_page w p) ps

  pub add_rotated : (ℕ → Bool) → ℤ → ℕ → Writer → List Page → Writer
  add_rotated matches angle number w [] = w
  add_rotated matches angle number w (p ∷ ps) =
      add_rotated matches angle (suc number)
        (add_page w (if matches number then rotate angle p else p)) ps

  append_all : Writer → List FilePath → Result PagesError Writer
  unfolding open_pdf
  append_all w [] = ok w
  append_all w (source ∷ sources) = do
    reader ← open_pdf source none
    append_all (append w reader) sources

  pub merge_pdfs : List FilePath → Result PagesError Writer
  unfolding append_all
  merge_pdfs sources = append_all new_writer sources

  -- The parts, each with its label and its file name.
  pub write_parts :
      ℕ → Reader → List (Text × List ℤ) → Result PagesError (List (Text × Text × Writer))
  unfolding add_numbered
  write_parts index reader [] = ok []
  write_parts index reader ((label, numbers) ∷ rest) = do
    w ← add_numbered new_writer reader numbers
    more ← write_parts (suc index) reader rest
    ok ((label_of label, codes "part-" ++ str (suc index) ++ codes ".pdf", w) ∷ more)

  pub split_pdf :
      FilePath → Option (List Text) → Bool → Result PagesError (List (Text × Text × Writer))
  unfolding open_pdf write_parts selections
  split_pdf source ranges every_page = do
    reader ← open_pdf source none
    chosen ← selections ranges every_page (total_of reader)
    write_parts 0 reader chosen

  pub rotate_pdf : FilePath → ℤ → Option Text → ApplyTo → Result PagesError Writer
  unfolding open_pdf add_rotated
  rotate_pdf source angle spec apply_to = do
    raise_if (is_bad_angle angle) bad_rotation
    reader ← open_pdf source none
    selected ← parsed_if_given spec (total_of reader)
    ok (add_rotated (rotates selected apply_to) angle 1 new_writer (pages reader))

  pub delete_pages : FilePath → Text → Result PagesError Writer
  unfolding open_pdf add_unless
  delete_pages source spec = do
    reader ← open_pdf source none
    doomed ← parse_page_selection spec (total_of reader)
    raise_if (leb (total_of reader) (distinct doomed)) every_page_deleted
    ok (add_unless (λ number. member_ℤ (pos number) doomed) 1 new_writer (pages reader))

  pub extract_pages : FilePath → Text → Result PagesError Writer
  unfolding open_pdf add_numbered
  extract_pages source spec = do
    reader ← open_pdf source none
    selection ← parse_page_selection spec (total_of reader)
    add_numbered new_writer reader selection

  pub reorder_pages : FilePath → List ℤ → Result PagesError Writer
  unfolding open_pdf is_permutation add_numbered
  reorder_pages source order = do
    reader ← open_pdf source none
    raise_if (not (is_permutation order (total_of reader))) not_a_permutation
    add_numbered new_writer reader order

  pub unlock_pdf : FilePath → Text → Result PagesError Writer
  unfolding open_pdf
  unlock_pdf source password = do
    reader ← open_pdf source (some password)
    raise_if (not (is_encrypted reader)) not_protected
    ok (append new_writer reader)
