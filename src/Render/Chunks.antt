-- ===== src/Render/Chunks.antt =====
-- The chunks of a large document, rendered apart, are the pages in order (app/utils/poppler.py).
use mathlib.Core.List.{Permᴰ, map-append}
use tools_backend.Base.{
  ℕ, zero, suc, ◌+◌, ◌-◌, ◌/◌, ◌≤◌, ◌<◌, min, max, ◌≡◌, refl, ap, ◌∙◌, inl, inr, Option, none, some,
  List, [], ◌∷◌, ◌++◌, map, append-nil, arith, ltb, leb, if◌then◌else◌, ltb→lt, leb→le, Bool-cases,
  Result, ok, not_ltb→le,
}
use tools_backend.Office.Command.{OfficeError}
use tools_backend.Render.{
  Renderer, Directory, Spread, insert_page, sort_pages, numbered_files, some_pages, pdf_to_images,
  render_chunks, chunks_from, or_one, or_total, chunk_size_of, render_span, pdf_to_images_auto,
}

abbrev pub number_of {ℓ} : {F : Type ℓ} → ℕ × F → ℕ
number_of (n, f) = n

-- n numbers from the start on
abbrev pub range_from : ℕ → ℕ → List ℕ
range_from start zero = []
range_from start (suc n) = start ∷ range_from (suc start) n

-- The sort, on the numbers alone
insert_number : ℕ → List ℕ → List ℕ
insert_number n [] = n ∷ []
insert_number n (m ∷ ms) = let rest = insert_number n ms in if ltb m n then m ∷ rest else n ∷ m ∷ ms

sort_numbers : List ℕ → List ℕ
sort_numbers [] = []
sort_numbers (n ∷ ns) = insert_number n (sort_numbers ns)

module _ {ℓ} {F : Type ℓ} where
  map-insert_page :
      (n : ℕ) (f : F) (pages : List (ℕ × F))
      → map number_of (insert_page (n, f) pages) ≡ insert_number n (map number_of pages)
  unfolding insert_number
  map-insert_page n f [] = refl
  map-insert_page n f ((m, g) ∷ pages) = elim (Bool-cases (ltb m n)) [
    | inl below ↦ rw below (ap (λ ms. m ∷ ms) (map-insert_page n f pages))
    | inr above ↦ rw above refl
  ]

  map-sort_pages :
      (pages : List (ℕ × F)) → map number_of (sort_pages pages) ≡ sort_numbers (map number_of pages)
  unfolding sort_pages sort_numbers
  map-sort_pages [] = refl
  map-sort_pages ((n, f) ∷ pages) =
      map-insert_page n f (sort_pages pages) ∙ ap (insert_number n) (map-sort_pages pages)

insert_number_comm :
    (a b : ℕ) (ns : List ℕ)
    → insert_number a (insert_number b ns) ≡ insert_number b (insert_number a ns)
unfolding insert_number
insert_number_comm a b [] = ground arith
insert_number_comm a b (n ∷ ns) = ground (arith, insert_number_comm a b ns)

sort_numbers-perm : {ns ms : List ℕ} → Permᴰ ns ms → sort_numbers ns ≡ sort_numbers ms
unfolding sort_numbers
sort_numbers-perm Permᴰ.nil = refl
sort_numbers-perm (Permᴰ.cons e p) = rw (e, sort_numbers-perm p) refl
sort_numbers-perm (Permᴰ.swap {a} {b} {l} e e') =
    rw (← e, ← e') (insert_number_comm a b (sort_numbers l))
sort_numbers-perm (Permᴰ.trans p q) = sort_numbers-perm p ∙ sort_numbers-perm q

lowest :
    (start n : ℕ)
    → insert_number start (range_from (suc start) n) ≡ start ∷ range_from (suc start) n
unfolding insert_number
lowest start zero = refl
lowest start (suc n) = ground arith

sort_numbers-range_from : (start n : ℕ) → sort_numbers (range_from start n) ≡ range_from start n
unfolding sort_numbers
sort_numbers-range_from start zero = refl
sort_numbers-range_from start (suc n) =
    ap (insert_number start) (sort_numbers-range_from (suc start) n) ∙ lowest start n

range_from-append :
    (start m n : ℕ) → range_from start m ++ range_from (start + m) n ≡ range_from start (m + n)
range_from-append start zero n =
    let e : start + 0 ≡ start = omega arith in let e' : 0 + n ≡ n = omega arith in rw (e, e') refl
range_from-append start (suc m) n =
    let e : start + suc m ≡ suc start + m = omega arith in
    let e' : suc m + n ≡ suc (m + n) = omega arith in
    rw (e, e') (ap (λ ns. start ∷ ns) (range_from-append (suc start) m n))

-- The pages of the chunks, one chunk after the other
chunk_pages : List (ℕ × ℕ) → List ℕ
chunk_pages [] = []
chunk_pages ((first, last) ∷ chunks) = range_from first (last + 1 - first) ++ chunk_pages chunks

-- The pages of a chunk, which may be cut off at the end, and those after it
chunk-append :
    (start end size : ℕ)
    → 0 < size
    → start ≤ end
    → range_from start (min (start + size - 1) end + 1 - start)
        ++ range_from (start + size) (end + 1 - (start + size))
      ≡ range_from start (end + 1 - start)
chunk-append start end size h le = elim (Bool-cases (leb (start + size) end)) [
  | inl whole ↦
      let within = leb→le (start + size) end whole in
      let e : min (start + size - 1) end + 1 - start ≡ size = omega arith in
      let e' : end + 1 - start ≡ size + (end + 1 - (start + size)) = omega arith in
      rw (e, e') (range_from-append start size (end + 1 - (start + size)))
  | inr cut ↦
      let over : end < start + size = ground arith in
      let e : min (start + size - 1) end + 1 - start ≡ end + 1 - start = omega arith in
      let e' : end + 1 - (start + size) ≡ 0 = omega arith in
      rw (e, e') (append-nil (range_from start (end + 1 - start)))
]

chunk_pages-chunks_from :
    (fuel start end size : ℕ)
    → 0 < size
    → end + 1 - start ≤ fuel
    → chunk_pages (chunks_from fuel start end size) ≡ range_from start (end + 1 - start)
unfolding chunk_pages
chunk_pages-chunks_from zero start end size h enough =
    let e : end + 1 - start ≡ 0 = omega arith in rw e refl
chunk_pages-chunks_from (suc fuel) start end size h enough = elim (Bool-cases (ltb end start)) [
  | inl past ↦
      let lt = ltb→lt end start past in
      let e : end + 1 - start ≡ 0 = omega arith in rw past (rw e refl)
  | inr inside ↦
      let le = not_ltb→le end start inside in
      rw inside (
        rw (chunk_pages-chunks_from fuel (start + size) end size h (omega arith))
          (chunk-append start end size h le))
]

or_one_pos : (page : Option ℕ) → 1 ≤ or_one page
or_one_pos none = omega arith
or_one_pos (some zero) = omega arith
or_one_pos (some (suc n)) = omega arith

-- What the tool relies on in pdftoppm: a range of a document of `total` pages is rendered to one file
-- for each page, which carries its number; the order of the files is open.
pub record Renders (renderer : Renderer) (total : ℕ) : Type 0 where
  pub run_lem :
      (first last : ℕ) (dir : Directory)
      → 1 ≤ first
      → first ≤ last
      → last ≤ total
      → (files : List renderer.File) × (renderer.run first last dir ≡ ok files)
        × Permᴰ
            (map number_of (numbered_files renderer files))
            (range_from first (last + 1 - first))

module _ (renderer : Renderer) (total : ℕ) (renders : Renders renderer total) where
  -- A result with these pages
  abbrev pub HasPages : Result OfficeError (List (ℕ × renderer.File)) → List ℕ → Type 0
  HasPages r ns = (pages : List (ℕ × renderer.File)) × (r ≡ ok pages) × (map number_of pages ≡ ns)

  some_pages-HasPages :
      (pages : List (ℕ × renderer.File)) (n : ℕ) (ns : List ℕ)
      → map number_of pages ≡ n ∷ ns
      → HasPages (some_pages renderer pages) (n ∷ ns)
  some_pages-HasPages [] n ns e = cc
  some_pages-HasPages (page ∷ pages) n ns e = (page ∷ pages, refl, e)

  pdf_to_images-HasPages :
      (first last : ℕ) (dir : Directory)
      → 1 ≤ first
      → first ≤ last
      → last ≤ total
      → HasPages (pdf_to_images renderer first last dir) (range_from first (last + 1 - first))
  unfolding pdf_to_images
  pdf_to_images-HasPages first last dir h h' h'' =
      let (files, e, perm) = renders.run_lem first last dir h h' h'' in
      let pages = numbered_files renderer files in
      let sorted : map number_of (sort_pages pages) ≡ range_from first (last + 1 - first) =
        map-sort_pages pages
        ∙ sort_numbers-perm perm
        ∙ sort_numbers-range_from first (last + 1 - first) in
      let some : last + 1 - first ≡ suc (last - first) = omega arith in
      rw (e, some)
        (some_pages-HasPages (sort_pages pages) first (range_from (suc first) (last - first))
          (rw some at sorted))

  -- The chunks lie in the document.
  AreInside : List (ℕ × ℕ) → Type 0
  AreInside [] = Unit
  AreInside ((first, last) ∷ chunks) =
      ((1 ≤ first) × (first ≤ last) × (last ≤ total)) × AreInside chunks

  chunks_from-AreInside :
      (fuel start end size : ℕ)
      → 0 < size
      → 1 ≤ start
      → end ≤ total
      → AreInside (chunks_from fuel start end size)
  unfolding AreInside
  chunks_from-AreInside zero start end size h h' h'' = tt
  chunks_from-AreInside (suc fuel) start end size h h' h'' = elim (Bool-cases (ltb end start)) [
    | inl past ↦ rw past tt
    | inr inside ↦
        let le = not_ltb→le end start inside in
        rw inside (
          (omega arith, omega arith, omega arith),
          chunks_from-AreInside fuel (start + size) end size h (omega arith) h'',
        )
  ]

  render_chunks-HasPages :
      (i : ℕ) (chunks : List (ℕ × ℕ))
      → AreInside chunks
      → HasPages (render_chunks renderer i chunks) (chunk_pages chunks)
  unfolding AreInside chunk_pages
  render_chunks-HasPages i [] _ = ([], refl, refl)
  render_chunks-HasPages i ((first, last) ∷ chunks) ((h, h', h''), rest) =
      let (pages, e, same) = pdf_to_images-HasPages first last (some i) h h' h'' in
      let (others, e', same') = render_chunks-HasPages (suc i) chunks rest in
      (pages ++ others, rw (e, e') refl, map-append number_of pages others ∙ rw (same, same') refl)

  div_pos : (a b : ℕ) → 0 < b → b ≤ a → 0 < a / b
  div_pos a b h h' = grind arith

  render_span-HasPages :
      (spread : Spread) (start end : ℕ)
      → 1 ≤ start
      → start ≤ end
      → end ≤ total
      → HasPages
          (render_span renderer spread start end (end + 1 - start))
          (range_from start (end + 1 - start))
  render_span-HasPages spread start end h h' h'' =
      let span = end + 1 - start in
      let workers = max 1 spread.workers in
      let size = chunk_size_of span workers in
      elim (Bool-cases (leb span spread.threshold)) [
        | inl small ↦ rw small (pdf_to_images-HasPages start end none h h' h'')
        | inr large ↦
            let pos : 0 < size = div_pos (span + workers - 1) workers (omega arith) (omega arith) in
            let chunks = chunks_from span start end size in
            let (pages, e, same) =
              render_chunks-HasPages 0 chunks
                (chunks_from-AreInside span start end size pos h h'') in
            rw large (
              sort_pages pages,
              rw e refl,
              map-sort_pages pages
                  ∙ ap sort_numbers
                      (same ∙ chunk_pages-chunks_from span start end size pos (omega arith))
                  ∙ sort_numbers-range_from start span,
            )
      ]

  -- Whatever the threshold and the number of workers, rendering a document gives exactly the pages
  -- from the first one asked for to the last, each once and in order, as long as pdftoppm renders
  -- every range of the document, and the range asked for is not empty.
  pub pdf_to_images_auto-HasPages :
      (spread : Spread) (first_page last_page : Option ℕ)
      → or_one first_page ≤ min (or_total total last_page) total
      → HasPages (pdf_to_images_auto renderer spread total first_page last_page) (
          range_from
            (or_one first_page)
            (min (or_total total last_page) total + 1 - or_one first_page))
  unfolding pdf_to_images_auto
  pdf_to_images_auto-HasPages spread first_page last_page h =
      render_span-HasPages spread (or_one first_page) (min (or_total total last_page) total)
        (or_one_pos first_page) h (omega arith)
