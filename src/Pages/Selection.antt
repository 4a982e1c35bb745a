-- ===== src/Pages/Selection.antt =====
-- `parse_page_selection` of app/utils/pdf_pages.py, and the errors of that module.
pub mod Bounds
use tools_backend.Base.{
  ℕ, ◌-◌, Bool, true, false, ◌||◌, not, Option, none, some, List, [], ◌∷◌, ◌++◌, if◌then◌else◌,
  ◌==◌, Text, codes, contains, split, partition, keep_if, any, is_empty, Result, ok, err, raise_if,
  ◌>>=◌, ◌>>◌,
}
use tools_backend.Base.Integers.{ℤ, pos, negsuc, leb_ℤ, range_through, int_of}

-- The `ProcessingError`s that the page operations raise, and the IndexError of `reader.pages[i]`.
pub data PagesError : Type 0 where
  unreadable password_protected incorrect_password no_pages : PagesError
  invalid_selection empty_selection pages_out_of_range : PagesError
  no_split_mode bad_rotation every_page_deleted not_a_permutation not_protected : PagesError
  index_error : PagesError

-- `int(x)` inside the `try`: a ValueError becomes "Invalid page selection"
abbrev value_or_invalid : Option ℤ → Result PagesError ℤ
value_or_invalid none = err invalid_selection
value_or_invalid (some n) = ok n

abbrev parse_bounds : Text × Option Text → Result PagesError (List ℤ)
parse_bounds (whole, none) = do n ← value_or_invalid (int_of whole); ok (n ∷ [])
parse_bounds (first, some rest) = do
  start ← value_or_invalid (int_of first)
  end ← value_or_invalid (int_of rest)
  ok (range_through start end)

-- What one part between two commas adds to `pages`; an empty part adds nothing.
unfoldable pub parse_part : Text → Result PagesError (List ℤ)
unfolding partition int_of
parse_part part = if is_empty part then ok [] else parse_bounds (partition b'-' part)

unfoldable pub parse_parts : List Text → Result PagesError (List ℤ)
unfolding parse_part
parse_parts [] = ok []
parse_parts (part ∷ parts) = do
  pages ← parse_part part
  more ← parse_parts parts
  ok (pages ++ more)

-- `p < 1 or p > total`
abbrev pub out_of_range : ℕ → ℤ → Bool
out_of_range total p = not (leb_ℤ (pos 1) p) || not (leb_ℤ p (pos total))

-- The two checks behind the `try`.
abbrev pub checked : ℕ → List ℤ → Result PagesError (List ℤ)
checked total pages = do
  raise_if (is_empty pages) empty_selection
  raise_if (any (out_of_range total) pages) pages_out_of_range
  ok pages

abbrev pub without_spaces : Text → Text
without_spaces spec = keep_if (λ c. not (c == b' ')) spec

unfoldable pub parse_page_selection : Text → ℕ → Result PagesError (List ℤ)
unfolding parse_parts split
parse_page_selection spec total = do
  pages ← parse_parts (split b',' (without_spaces spec))
  checked total pages
