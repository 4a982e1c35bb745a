-- ===== src/Pages/Operations/Split.antt =====
-- Splitting a document (`split_pdf` of app/utils/pdf_pages.py).
use tools_backend.Base.{
  ℕ, suc, ◌≡◌, refl, ap, ◌∙◌, Bool, true, false, Option, none, some, List, [], ◌∷◌, map, arith,
  length, All, ok, >>=-eq-ok, Text, codes, ◌++◌,
}
use mathlib.Core.Path.{ap₂}
use tools_backend.Base.Integers.{ℤ}
use tools_backend.Pages.Pypdf.{Pypdf}
use tools_backend.Base.Digits.{str}
use tools_backend.Pages.Operations.{
  label_of, page_at, split_pdf, write_parts, open_pdf, selections, parse_ranges,
  every_page_selections, one_to,
}
use tools_backend.Pages.Operations.Numbers.{page_at-count_up, count_up-IsPageOf}
use tools_backend.Pages.Operations.Extract.{write_selection}
use tools_backend.Pages.Selection.{parse_page_selection}
use tools_backend.Pages.Selection.Bounds.{parse_page_selection-IsPageOf, IsPageOf}

abbrev AllValid : ℕ → List (Text × List ℤ) → Type 0
AllValid total = All (λ s. All (IsPageOf total) s.1)

parse_ranges-AllValid :
    (specs : List Text) (total : ℕ) (chosen : List (Text × List ℤ))
    → parse_ranges specs total ≡ ok chosen
    → AllValid total chosen
unfolding parse_ranges
parse_ranges-AllValid [] total chosen h = let e : [] ≡ chosen = cc in rw (← e) tt
parse_ranges-AllValid (spec ∷ specs) total chosen h =
    let (ps, parsed, rest) = >>=-eq-ok (parse_page_selection spec total) _ h in
    let (more, all_parsed, same) = >>=-eq-ok (parse_ranges specs total) _ rest in
    let e : (spec, ps) ∷ more ≡ chosen = cc in
    rw (← e) (
      (parse_page_selection-IsPageOf spec total ps parsed).1,
      parse_ranges-AllValid specs total more all_parsed,
    )

every_page-AllValid :
    (total : ℕ) (ns : List ℤ) → All (IsPageOf total) ns → AllValid total (every_page_selections ns)
every_page-AllValid total [] h = tt
every_page-AllValid total (n ∷ ns) (v, h) = ((v, tt), every_page-AllValid total ns h)

selections-AllValid :
    (ranges : Option (List Text)) (every_page : Bool) (total : ℕ) (chosen : List (Text × List ℤ))
    → selections ranges every_page total ≡ ok chosen
    → AllValid total chosen
unfolding selections
selections-AllValid ranges true total chosen h =
    let e : every_page_selections (one_to total) ≡ chosen = cc in
    rw (← e)
      (every_page-AllValid total (one_to total) (count_up-IsPageOf total total 0 (omega arith)))
selections-AllValid none false total chosen h = cc
selections-AllValid (some []) false total chosen h = cc
selections-AllValid (some (spec ∷ specs)) false total chosen h =
    parse_ranges-AllValid (spec ∷ specs) total chosen h

map-every_page {ℓ} :
    {B : Type ℓ} (f : ℤ → B) (ns : List ℤ)
    → map (λ (s : Text × List ℤ). map f s.1) (every_page_selections ns)
      ≡ map (λ b. b ∷ []) (map f ns)
map-every_page f [] = refl
map-every_page f (n ∷ ns) = ap (λ rest. (f n ∷ []) ∷ rest) (map-every_page f ns)

module _ (lib : Pypdf) where
  open lib use {FilePath, Reader, Writer, Page, pages, new_writer, written}

  -- The pages in each written part.
  abbrev pub part_pages : List (Text × Text × Writer) → List (List (Option Page))
  part_pages parts = map (λ part. map some (written part.2)) parts

  write_parts-written :
      (index : ℕ) (r : Reader) (chosen : List (Text × List ℤ))
      → AllValid (length (pages r)) chosen
      → (parts : List (Text × Text × Writer)) × (write_parts lib index r chosen ≡ ok parts)
        × (part_pages parts ≡ map (λ s. map (page_at (pages r)) s.1) chosen)
  unfolding write_parts
  write_parts-written index r [] h = ([], refl, refl)
  write_parts-written index r ((label, numbers) ∷ rest) (v, h) =
      let (w, done, same) = write_selection lib r numbers v in
      let (parts, all_done, all_same) = write_parts-written (suc index) r rest h in
      (
        (label_of label, codes "part-" ++ str (suc index) ++ codes ".pdf", w) ∷ parts,
        rw (done, all_done),
        ap₂ (λ a b. a ∷ b) same all_same,
      )

  -- When the file opens and the mode or the ranges are valid, splitting never fails: there is one
  -- part for each selection, in order, and it has exactly the pages of that selection.
  pub split_pdf-written :
      (source : FilePath) (ranges : Option (List Text)) (every_page : Bool) (r : Reader)
      (chosen : List (Text × List ℤ))
      → open_pdf lib source none ≡ ok r
      → selections ranges every_page (length (pages r)) ≡ ok chosen
      → (parts : List (Text × Text × Writer)) × (split_pdf lib source ranges every_page ≡ ok parts)
        × (part_pages parts ≡ map (λ s. map (page_at (pages r)) s.1) chosen)
  unfolding split_pdf
  split_pdf-written source ranges every_page r chosen opened valid =
      let (parts, done, same) =
        write_parts-written 0 r chosen (selections-AllValid ranges every_page _ chosen valid) in
      (parts, rw (opened, valid) done, same)

  -- Splitting in every-page mode gives one part for each page of the document, in order.
  pub split_pdf-every_page :
      (source : FilePath) (ranges : Option (List Text)) (r : Reader)
      → open_pdf lib source none ≡ ok r
      → (parts : List (Text × Text × Writer)) × (split_pdf lib source ranges true ≡ ok parts)
        × (part_pages parts ≡ map (λ p. p ∷ []) (map some (pages r)))
  split_pdf-every_page source ranges r opened =
      let (parts, done, same) =
        split_pdf-written source ranges true r (every_page_selections (one_to (length (pages r))))
          opened (unfold selections in refl) in
      (
        parts,
        done,
        same
            ∙ map-every_page (page_at (pages r)) _
            ∙ ap (map (λ p. p ∷ [])) (page_at-count_up [] (pages r)),
      )
