-- ===== src/Render.antt =====
-- The rasterisation of a document's pages (app/utils/poppler.py). pdftoppm is a parameter: what it
-- leaves in a directory when it is asked for a range of pages.
pub mod Chunks
mod Examples
use mathlib.Core.List.{reverse}
use tools_backend.Base.{
  ℕ, zero, suc, ◌+◌, ◌-◌, ◌/◌, min, max, ap, Option, none, some, List, [], ◌∷◌, ◌++◌, ltb, leb,
  ◌==◌, if◌then◌else◌, set, Result, ok, err, Text, is_digit, ◌>>=◌, ◌>>◌,
}
use tools_backend.Base.Digits.{value_from}
use tools_backend.Office.Command.{OfficeError, processing_error}

-- The directory of the output, or that of a chunk
abbrev pub Directory : Type 0
Directory = Option ℕ

pub record Renderer : Type 1 where
  pub File : Type 0
  pub stem : File → Text
  pub run : ℕ → ℕ → Directory → Result OfficeError (List File)

-- The digits at the start of a text, and the rest
abbrev pub with_digit : ℕ → Text × Text → Text × Text
with_digit c (digits, rest) = (c ∷ digits, rest)

abbrev pub leading_digits : Text → Text × Text
leading_digits [] = ([], [])
leading_digits (c ∷ t) =
    let more = with_digit c (leading_digits t) in if is_digit c then more else ([], c ∷ t)

-- The reversed digits before a dash, read as a number
abbrev pub suffix_number : Text × Text → Option ℕ
suffix_number ([], rest) = none
suffix_number (d ∷ digits, []) = none
suffix_number (d ∷ digits, c ∷ rest) =
    if c == b'-' then some (value_from 0 (reverse (d ∷ digits))) else none

-- `_PAGE_SUFFIX.search(stem)`
unfoldable pub page_suffix : Text → Option ℕ
unfolding value_from
page_suffix stem = suffix_number (leading_digits (reverse stem))

abbrev pub add_page_file {ℓ} : {F : Type ℓ} → F → Option ℕ → List (ℕ × F) → List (ℕ × F)
add_page_file file none pages = pages
add_page_file file (some n) pages = (n, file) ∷ pages

-- A stable sort by the numbers
abbrev pub insert_page {ℓ} : {F : Type ℓ} → ℕ × F → List (ℕ × F) → List (ℕ × F)
insert_page page [] = page ∷ []
insert_page (n, f) ((m, g) ∷ pages) =
    let rest = insert_page (n, f) pages in
    if ltb m n then (m, g) ∷ rest else (n, f) ∷ (m, g) ∷ pages

unfoldable pub sort_pages {ℓ} : {F : Type ℓ} → List (ℕ × F) → List (ℕ × F)
sort_pages [] = []
sort_pages (page ∷ pages) = insert_page page (sort_pages pages)

-- `range(start, stop, step)` of the chunks, each with its last page; the fuel is the number of pages
abbrev pub chunks_from : ℕ → ℕ → ℕ → ℕ → List (ℕ × ℕ)
chunks_from zero start end size = []
chunks_from (suc fuel) start end size =
    let rest = chunks_from fuel (start + size) end size in
    if ltb end start then [] else (start, min (start + size - 1) end) ∷ rest

-- The settings RENDER_PARALLEL_THRESHOLD_PAGES and RENDER_PARALLEL_WORKERS
pub record Spread : Type 0 where
  pub threshold : ℕ
  pub workers : ℕ

abbrev pub or_one : Option ℕ → ℕ
or_one none = 1
or_one (some zero) = 1
or_one (some (suc n)) = suc n

abbrev pub or_total : ℕ → Option ℕ → ℕ
or_total total none = total
or_total total (some zero) = total
or_total total (some (suc n)) = suc n

-- `-(-span // workers)`
abbrev pub chunk_size_of : ℕ → ℕ → ℕ
chunk_size_of span workers = (span + workers - 1) / workers

module _ (renderer : Renderer) where
  abbrev pub numbered_files : List renderer.File → List (ℕ × renderer.File)
  numbered_files [] = []
  numbered_files (file ∷ files) =
      add_page_file file (page_suffix (renderer.stem file)) (numbered_files files)

  abbrev pub some_pages : List (ℕ × renderer.File) → Result OfficeError (List (ℕ × renderer.File))
  some_pages [] = err processing_error
  some_pages (page ∷ pages) = ok (page ∷ pages)

  unfoldable pub pdf_to_images : ℕ → ℕ → Directory → Result OfficeError (List (ℕ × renderer.File))
  unfolding sort_pages page_suffix
  pdf_to_images first_page last_page output_dir = do
    files ← renderer.run first_page last_page output_dir
    some_pages (sort_pages (numbered_files files))

  -- The results of the chunks, each rendered into a directory of its own; the first error is raised
  abbrev pub render_chunks : ℕ → List (ℕ × ℕ) → Result OfficeError (List (ℕ × renderer.File))
  render_chunks i [] = ok []
  render_chunks i ((first, last) ∷ chunks) = do
    pages ← pdf_to_images first last (some i)
    rest ← render_chunks (suc i) chunks
    ok (pages ++ rest)

  abbrev pub render_span : Spread → ℕ → ℕ → ℕ → Result OfficeError (List (ℕ × renderer.File))
  render_span spread start end span =
      if leb span spread.threshold then pdf_to_images start end none else do
        pages ←
            render_chunks 0 (chunks_from span start end (chunk_size_of span (max 1 spread.workers)))
        ok (sort_pages pages)

  unfoldable pub pdf_to_images_auto :
      Spread → ℕ → Option ℕ → Option ℕ → Result OfficeError (List (ℕ × renderer.File))
  unfolding sort_pages pdf_to_images
  pdf_to_images_auto spread total_pages first_page last_page =
      let start = or_one first_page in
      let end = min (or_total total_pages last_page) total_pages in
      render_span spread start end (end + 1 - start)
