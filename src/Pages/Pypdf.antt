-- ===== src/Pages/Pypdf.antt =====
-- What the page operations use of pypdf: readers, writers and pages, with the documented
-- behaviour that the operations rely on. pypdf is not under app/, so it is a parameter.
use tools_backend.Base.{ℕ, ◌≡◌, Bool, List, [], ◌∷◌, ◌++◌, Option, Text}
use tools_backend.Base.Integers.{ℤ}

pub record Pypdf : Type 1 where
  pub FilePath : Type 0
  pub Reader : Type 0
  pub Writer : Type 0
  pub Page : Type 0
  -- `PdfReader(source)`; `none` is any exception of it
  pub read : FilePath → Option Reader
  pub is_encrypted : Reader → Bool
  -- `reader.decrypt(password)` : 0 is a failure
  pub decrypt : Reader → Text → ℕ
  pub pages : Reader → List Page
  -- `page.rotate(angle)`
  pub rotate : ℤ → Page → Page
  pub new_writer : Writer
  pub add_page : Writer → Page → Writer
  pub append : Writer → Reader → Writer
  -- the pages of the file that `writer.write` makes
  pub written : Writer → List Page
  pub written-new : written new_writer ≡ []
  pub written-add_page : (w : Writer) (p : Page) → written (add_page w p) ≡ written w ++ p ∷ []
  pub written-append : (w : Writer) (r : Reader) → written (append w r) ≡ written w ++ pages r
