-- ===== src/Pages/Operations/Examples.antt =====
-- The page operations on a small document, with a model of pypdf made of lists.
use tools_backend.Base.{
  ℕ, zero, suc, ◌+◌, ◌-◌, ◌<◌, ◌≡◌, refl, ap, ◌≢◌, Bool, true, false, Option, none, some, List, [],
  ◌∷◌, ◌++◌, map, if◌then◌else◌, length, get_elem?, drop, All, ok, Text, codes, text_eq, member,
  split,
}
use mathlib.Core.List.{Perm}
use tools_backend.Base.Integers.{ℤ, pos, negsuc, member_ℤ, count_up}
use tools_backend.Pages.Pypdf.{Pypdf}
use tools_backend.Pages.Selection.{parse_page_selection}
use tools_backend.Pages.Selection.Bounds.{IsPageOf, parse_page_selection-IsPageOf}
use tools_backend.Pages.Operations.{
  page_at, open_pdf, merge_pdfs, split_pdf, rotate_pdf, delete_pages, extract_pages, reorder_pages,
  unlock_pdf, ApplyTo, all_pages, odd_pages, even_pages, rotates, parsed_if_given, selections,
}
use tools_backend.Pages.Operations.Written.{drop_numbered}
use tools_backend.Pages.Operations.Delete.{delete_pages-written}
use tools_backend.Pages.Operations.Reorder.{reorder_pages-perm}
use tools_backend.Pages.Operations.Split.{part_pages, split_pdf-written}

-- A page is a number with the angle it is turned by; a file is a list of pages, and its password.
abbrev SamplePage : Type 0
SamplePage = ℕ × ℤ

abbrev SampleFile : Type 0
SampleFile = List SamplePage × Option Text

abbrev page : ℕ → SamplePage
page n = (n, pos 0)

abbrev sample_read : ℕ → Option SampleFile
sample_read zero = some (page 10 ∷ page 20 ∷ page 30 ∷ [], none)
sample_read (suc zero) = some (page 40 ∷ [], none)
sample_read (suc (suc zero)) = some (page 50 ∷ page 60 ∷ [], some (codes "pw"))
sample_read (suc (suc (suc _))) = none

abbrev is_some : Option Text → Bool
is_some none = false
is_some (some _) = true

abbrev sample_decrypt : Option Text → Text → ℕ
sample_decrypt none given = 0
sample_decrypt (some password) given = if text_eq password given then 1 else 0

abbrev sample : Pypdf
sample = record {
  FilePath = ℕ;
  Reader = SampleFile;
  Writer = List SamplePage;
  Page = SamplePage;
  read = sample_read;
  is_encrypted = λ r. is_some r.1;
  decrypt = λ r. sample_decrypt r.1;
  pages = λ r. r.0;
  rotate = λ angle p. (p.0, angle);
  new_writer = [];
  add_page = λ w p. w ++ p ∷ [];
  append = λ w r. w ++ r.0;
  written = λ w. w;
  written-new = refl;
  written-add_page = λ w p. refl;
  written-append = λ w r. refl;
}

abbrev three : SampleFile
three = (page 10 ∷ page 20 ∷ page 30 ∷ [], none)

parse_page_selection-IsPageOf_example :
    ((pos 3 ∷ pos 1 ∷ pos 2 ∷ []) ≢ []) × All (IsPageOf 3) (pos 3 ∷ pos 1 ∷ pos 2 ∷ [])
unfolding parse_page_selection count_up
parse_page_selection-IsPageOf_example =
    parse_page_selection-IsPageOf (codes "3,1-2") 3 (pos 3 ∷ pos 1 ∷ pos 2 ∷ []) refl

delete_pages-written_example :
    ((page 10 ∷ page 30 ∷ [])
      ≡ drop_numbered (λ number. member_ℤ (pos number) (pos 2 ∷ [])) 1 three.0)
    × (0 < length (page 10 ∷ page 30 ∷ []))
unfolding open_pdf parse_page_selection count_up delete_pages
    tools_backend.Pages.Operations.distinct member_ℤ
delete_pages-written_example =
    delete_pages-written sample 0 (codes "2") three (pos 2 ∷ []) (page 10 ∷ page 30 ∷ []) refl refl
      refl

reorder_pages-perm_example :
    Perm (page 30 ∷ page 10 ∷ page 20 ∷ []) three.0
    × (map some (page 30 ∷ page 10 ∷ page 20 ∷ [])
        ≡ map (page_at three.0) (pos 3 ∷ pos 1 ∷ pos 2 ∷ []))
unfolding open_pdf reorder_pages tools_backend.Base.Integers.sorted
    tools_backend.Base.Integers.insert_sorted count_up
reorder_pages-perm_example =
    reorder_pages-perm sample 0 (pos 3 ∷ pos 1 ∷ pos 2 ∷ []) three
      (page 30 ∷ page 10 ∷ page 20 ∷ []) refl refl

split_pdf-written_example :
    (parts : List (Text × Text × List SamplePage)) × (split_pdf sample 0
        (some (codes "1-2" ∷ codes "3" ∷ []))
        false
      ≡ ok parts)
    × (part_pages sample parts
        ≡ map
            (λ (s : Text × List ℤ). map (page_at three.0) s.1)
            ((codes "1-2", pos 1 ∷ pos 2 ∷ []) ∷ (codes "3", pos 3 ∷ []) ∷ []))
unfolding open_pdf selections parse_page_selection count_up
split_pdf-written_example =
    split_pdf-written sample 0 (some (codes "1-2" ∷ codes "3" ∷ [])) false three
      ((codes "1-2", pos 1 ∷ pos 2 ∷ []) ∷ (codes "3", pos 3 ∷ []) ∷ []) refl refl
