-- ===== src/Pages/Operations/Extract.antt =====
-- Extracting and splitting (`extract_pages`, `split_pdf` of app/utils/pdf_pages.py).
use tools_backend.Base.{◌≡◌, ◌∙◌, some, map, length, All, ok, List, Text, none}
use tools_backend.Pages.Pypdf.{Pypdf}
use tools_backend.Pages.Operations.{page_at, extract_pages, open_pdf, add_numbered, ℤ}
use tools_backend.Pages.Operations.Written.{written-add_numbered}
use tools_backend.Pages.Selection.{parse_page_selection}
use tools_backend.Pages.Selection.Bounds.{parse_page_selection-IsPageOf, IsPageOf}

module _ (lib : Pypdf) where
  open lib use {FilePath, Reader, Writer, Page, pages, new_writer, written, written-new}

  -- The pages with the given numbers are found and written to an empty writer, in the given order.
  pub write_selection :
      (r : Reader) (numbers : List ℤ)
      → All (IsPageOf (length (pages r))) numbers
      → (w : Writer) × (add_numbered lib new_writer r numbers ≡ ok w)
        × (map some (written w) ≡ map (page_at (pages r)) numbers)
  write_selection r numbers h =
      let (w, done, same) = written-add_numbered lib r numbers new_writer h in
      (w, done, same ∙ rw written-new)

  -- When the file opens and the selection is valid, extracting never fails, and the file that it
  -- writes has exactly the selected pages, in the order of the selection, repetitions included.
  pub extract_pages-written :
      (source : FilePath) (spec : Text) (r : Reader) (selection : List ℤ)
      → open_pdf lib source none ≡ ok r
      → parse_page_selection spec (length (pages r)) ≡ ok selection
      → (w : Writer) × (extract_pages lib source spec ≡ ok w)
        × (map some (written w) ≡ map (page_at (pages r)) selection)
  unfolding extract_pages
  extract_pages-written source spec r selection opened parsed =
      let (w, done, same) =
        write_selection r selection (parse_page_selection-IsPageOf spec _ selection parsed).1 in
      (w, rw (opened, parsed) done, same)
