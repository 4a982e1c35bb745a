-- ===== src/Render/Examples.antt =====
-- A pdftoppm that lists the pages backwards, on a document of two pages.
use mathlib.Core.List.{Permᴰ, reverse}
use mathlib.Core.List.Permᴰ
use tools_backend.Base.{
  ℕ, zero, suc, ◌+◌, ◌-◌, ◌≤◌, ◌≡◌, refl, none, some, List, [], ◌∷◌, map, arith, ◌==◌,
  if◌then◌else◌, ok, Text, codes,
}
use tools_backend.Render.{
  Renderer, Spread, Directory, page_suffix, numbered_files, chunks_from, pdf_to_images_auto,
}
use tools_backend.Render.Chunks.{
  Renders, HasPages, range_from, number_of, pdf_to_images_auto-HasPages,
}

abbrev stem_of : ℕ → Text
stem_of n = if n == 1 then codes "in-page-1" else codes "in-page-2"

abbrev renderer : Renderer
renderer = record {
  File = ℕ;
  stem = stem_of;
  run = λ first last dir. ok (reverse (range_from first (last + 1 - first)));
}

renders : Renders renderer 2
unfolding page_suffix
renders = record { run_lem = pages }
  where
    pages :
        (first last : ℕ) (dir : Directory)
        → 1 ≤ first
        → first ≤ last
        → last ≤ 2
        → (files : List ℕ) × (renderer.run first last dir ≡ ok files)
          × Permᴰ
              (map number_of (numbered_files renderer files))
              (range_from first (last + 1 - first))
    pages zero last dir h h' h'' = absurd (omega arith)
    pages (suc zero) zero dir h h' h'' = absurd (omega arith)
    pages (suc zero) (suc zero) dir h h' h'' = (1 ∷ [], refl, Permᴰ.refl _)
    pages (suc zero) (suc (suc zero)) dir h h' h'' = (2 ∷ 1 ∷ [], refl, Permᴰ.swap refl refl)
    pages (suc (suc zero)) (suc (suc zero)) dir h h' h'' = (2 ∷ [], refl, Permᴰ.refl _)
    pages (suc (suc zero)) (suc zero) dir h h' h'' = absurd (omega arith)
    pages (suc (suc zero)) zero dir h h' h'' = absurd (omega arith)
    pages (suc (suc (suc n))) last dir h h' h'' = absurd (omega arith)
    pages first (suc (suc (suc n))) dir h h' h'' = absurd (omega arith)

abbrev spread : Spread
spread = record { threshold = 1; workers = 4 }

suffixes : map page_suffix (codes "in-page-012" ∷ codes "in-page" ∷ []) ≡ some 12 ∷ none ∷ []
unfolding page_suffix
suffixes = refl

chunked : chunks_from 10 3 12 4 ≡ (3, 6) ∷ (7, 10) ∷ (11, 12) ∷ []
chunked = refl

pdf_to_images_auto-HasPages_example :
    HasPages renderer 2 renders (pdf_to_images_auto renderer spread 2 none (some 7)) (1 ∷ 2 ∷ [])
pdf_to_images_auto-HasPages_example =
    pdf_to_images_auto-HasPages renderer 2 renders spread none (some 7) (omega arith)
