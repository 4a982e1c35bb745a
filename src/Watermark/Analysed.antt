-- ===== src/Watermark/Analysed.antt =====
-- What the analysis pass records and decides for a whole document (`_analyse_document` of
-- app/utils/pdf_security.py).
use tools_backend.Base.{
  ℕ, ◌≤◌, ◌<◌, ◌≡◌, refl, sym, ap, ◌∙◌, inl, inr, Bool, false, Option, List, [], ◌∷◌, ◌++◌, arith,
  ◌==◌, Bool-cases, length, any, All, All-append, Text, text_eq,
}
use tools_backend.Watermark.Objects.{Operation, Store}
use tools_backend.Watermark.Matrices.{Floats, Matrix, is_transparent}
use tools_backend.Watermark.Sink.{
  TextRecord, ImageRecord, ImageTraits, Sink, add_page, note_text, note_image, is_strong,
  is_candidate, traits_of, observe_text, observe_image, PageBox, SetOrder, max_auto_targets, decide,
}
use tools_backend.Watermark.Filter.{Digests}
use tools_backend.Watermark.Scan.{Page, analyse_pages}
use tools_backend.Watermark.Walked.{analyse_pages-Holds}
use tools_backend.Watermark.Decided.{
  Rearranges, Observation, Observed, observe, observe_all, no_records, decide-AreObserved,
}

-- No number stands twice in the list, as in a set.
abbrev pub AreSet : List ℕ → Type 0
AreSet [] = Unit
AreSet (p ∷ ps) = (any (λ q. q == p) ps ≡ false) × AreSet ps

-- The recorded pages are pages of the document, and each is there once.
abbrev pub IsCounted : ℕ → List ℕ → Type 0
IsCounted total pages = All (λ (p : ℕ). p < total) pages × AreSet pages

abbrev pub AreCounted : ℕ → Sink → Type 0
AreCounted total s =
    All (λ (r : TextRecord). IsCounted total r.pages) s.texts
    × All (λ (r : ImageRecord). IsCounted total r.pages) s.images

add_page-IsCounted :
    (total page : ℕ) (pages : List ℕ)
    → page < total
    → IsCounted total pages
    → IsCounted total (add_page page pages)
add_page-IsCounted total page pages below (h, distinct) =
    elim (Bool-cases (any (λ p. p == page) pages)) [
      | inl known ↦ rw known (h, distinct)
      | inr fresh ↦ rw fresh ((below, h), (fresh, distinct))
    ]

note_text-AreCounted :
    (total page : ℕ) (norm : Text) (strong : Bool) (records : List TextRecord)
    → page < total
    → All (λ (r : TextRecord). IsCounted total r.pages) records
    → All (λ (r : TextRecord). IsCounted total r.pages) (note_text page norm strong records)
note_text-AreCounted total page norm strong [] below h =
    (add_page-IsCounted total page [] below (tt, tt), tt)
note_text-AreCounted total page norm strong (r ∷ records) below (p, h) =
    elim (Bool-cases (text_eq r.norm norm)) [
      | inl same ↦ rw same (add_page-IsCounted total page r.pages below p, h)
      | inr other ↦ rw other (p, note_text-AreCounted total page norm strong records below h)
    ]

note_image-AreCounted :
    (total page : ℕ) (digest : Text) (traits : ImageTraits) (records : List ImageRecord)
    → page < total
    → All (λ (r : ImageRecord). IsCounted total r.pages) records
    → All (λ (r : ImageRecord). IsCounted total r.pages) (note_image page digest traits records)
note_image-AreCounted total page digest traits [] below h =
    (add_page-IsCounted total page [] below (tt, tt), tt)
note_image-AreCounted total page digest traits (r ∷ records) below (p, h) =
    elim (Bool-cases (text_eq r.digest digest)) [
      | inl same ↦ rw same (add_page-IsCounted total page r.pages below p, h)
      | inr other ↦ rw other (p, note_image-AreCounted total page digest traits records below h)
    ]

module _ (floats : Floats) where
  observe_text-AreCounted :
      (total page : ℕ) (norm : Text) (diagonal : Bool) (alpha size : floats.F) (s : Sink)
      → page < total
      → AreCounted total s
      → AreCounted total (observe_text floats page norm diagonal alpha size s)
  unfolding observe_text
  observe_text-AreCounted total page norm diagonal alpha size s below (h, images) =
      elim (Bool-cases (is_candidate floats norm diagonal alpha)) [
        | inl good ↦ rw good (
          note_text-AreCounted total page norm
              (is_strong floats diagonal (is_transparent floats alpha) size) s.texts below h,
          images,
        )
        | inr plain ↦ rw plain (h, images)
      ]

  observe_image-AreCounted :
      (total page : ℕ) (digest : Text) (ctm : Matrix floats.F) (alpha : floats.F) (has_smask : Bool)
      (page_box : PageBox floats) (s : Sink)
      → page < total
      → AreCounted total s
      → AreCounted total (observe_image floats page digest ctm alpha has_smask page_box s)
  unfolding observe_image
  observe_image-AreCounted total page digest ctm alpha has_smask page_box s below (texts, h) = (
    texts,
    note_image-AreCounted total page digest (traits_of floats ctm alpha has_smask page_box) s.images
        below h,
  )

  -- The page of an observation is one of the document.
  abbrev pub IsOnPage : ℕ → Observation floats → Type 0
  IsOnPage total (Observation.text page norm diagonal alpha size) = page < total
  IsOnPage total (Observation.image page digest ctm alpha has_smask page_box) = page < total

  observe_all-snoc :
      (os : List (Observation floats)) (o : Observation floats) (s : Sink)
      → observe_all floats (os ++ o ∷ []) s ≡ observe floats o (observe_all floats os s)
  observe_all-snoc [] o s = refl
  observe_all-snoc (q ∷ os) o s = observe_all-snoc os o (observe floats q s)

  -- The sink is what observations on pages of the document lead to.
  abbrev pub IsTraced : ℕ → Sink → Type 0
  IsTraced total s =
      (os : List (Observation floats)) × All (IsOnPage total) os
      × (s ≡ observe_all floats os (no_records floats))

  observe-IsTraced :
      (total : ℕ) (o : Observation floats) (s : Sink)
      → IsOnPage total o
      → IsTraced total s
      → IsTraced total (observe floats o s)
  observe-IsTraced total o s on (os, all, e) = (
    os ++ o ∷ [],
    All-append (IsOnPage total) os (o ∷ []) all (on, tt),
    ap (observe floats o) e ∙ sym (observe_all-snoc os o (no_records floats)),
  )

  module _ (store : Store floats.F) (digests : Digests floats.F)
      (operations_of : ℕ → Option (List (Operation floats.F))) where
    -- The findings on all pages, from the first one
    unfoldable pub analysed_sink : List (Page floats) → Sink
    unfolding analyse_pages
    analysed_sink pages =
        (analyse_pages floats store digests operations_of 0 pages
          (record { sink = no_records floats; form_hints = [] })).sink

    analysed_sink-AreCounted :
        (pages : List (Page floats)) → AreCounted (length pages) (analysed_sink pages)
    unfolding analysed_sink
    analysed_sink-AreCounted pages =
        analyse_pages-Holds floats store digests operations_of (AreCounted (length pages))
          (length pages)
          (λ page below norm diagonal alpha size s h.
            observe_text-AreCounted (length pages) page norm diagonal alpha size s below h)
          (λ page below digest ctm alpha has_smask page_box s h.
            observe_image-AreCounted (length pages) page digest ctm alpha has_smask page_box s below
              h)
          0 pages (record { sink = no_records floats; form_hints = [] }) (omega arith) (tt, tt)

    analysed_sink-IsTraced :
        (pages : List (Page floats)) → IsTraced (length pages) (analysed_sink pages)
    unfolding analysed_sink
    analysed_sink-IsTraced pages =
        analyse_pages-Holds floats store digests operations_of (IsTraced (length pages))
          (length pages)
          (λ page below norm diagonal alpha size s h.
            observe-IsTraced (length pages) (Observation.text page norm diagonal alpha size) s below
              h)
          (λ page below digest ctm alpha has_smask page_box s h.
            observe-IsTraced (length pages)
              (Observation.image page digest ctm alpha has_smask page_box) s below h)
          0 pages (record { sink = no_records floats; form_hints = [] }) (omega arith)
          ([], tt, refl)

    -- However the streams and the forms in them are nested, the analysis of a document records for each
    -- text and image pages of the document, each once, and comes from observations on such pages. It
    -- picks at most eight texts and eight images, and a text only if it has 2 to 80 characters and was
    -- observed diagonally or transparently. The order of a set only rearranges it.
    pub analyse_pages-AreObserved :
        (order : SetOrder) (pages : List (Page floats))
        → Rearranges order
        → let (needles, images) = decide order (length pages) (analysed_sink pages) in
          AreCounted (length pages) (analysed_sink pages)
          × (length needles ≤ max_auto_targets)
          × (length images ≤ max_auto_targets)
          × (os : List (Observation floats)) × All (IsOnPage (length pages)) os
          × (analysed_sink pages ≡ observe_all floats os (no_records floats))
          × All (λ (norm : Text). Observed floats norm os) needles
    analyse_pages-AreObserved order pages perms =
        let (os, on, e) = analysed_sink-IsTraced pages in
        let (few, few_images, seen) = decide-AreObserved floats order (length pages) os perms in
        let counted = analysed_sink-AreCounted pages in
        rw e (rw e at counted, few, few_images, os, on, refl, seen)
