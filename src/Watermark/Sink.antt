-- ===== src/Watermark/Sink.antt =====
-- The observations of the analysis pass and the decision on them (`_DetectionSink` of
-- app/utils/pdf_security.py). Digests are texts; the order in which a set is run through is a parameter.
use tools_backend.Base.{
  ℕ, suc, ◌+◌, ◌/◌, max, Bool, true, false, ◌&&◌, ◌||◌, List, [], ◌∷◌, map, ltb, leb, ◌==◌,
  if◌then◌else◌, length, take, keep_if, any, Text, text_eq,
}
use tools_backend.Watermark.Matrices.{
  Floats, Matrix, determinant, is_diagonal, is_transparent, max_of, min_of,
}

-- What is known of a text, or of an image: the pages with it, how often it is on each, and its traits.
-- In `pages`, a set, the latest page that is new stands first.
pub record TextRecord : Type 0 where
  pub norm : Text
  pub pages : List ℕ
  pub counts : List (ℕ × ℕ)
  pub strong : Bool

pub record ImageRecord : Type 0 where
  pub digest : Text
  pub pages : List ℕ
  pub counts : List (ℕ × ℕ)
  pub diagonal : Bool
  pub transparent : Bool
  pub centered : Bool
  pub big : Bool

abbrev pub add_page : ℕ → List ℕ → List ℕ
add_page page pages = if any (λ p. p == page) pages then pages else page ∷ pages

-- `counts[page] += 1`
abbrev pub count_page : ℕ → List (ℕ × ℕ) → List (ℕ × ℕ)
count_page page [] = (page, 1) ∷ []
count_page page ((p, n) ∷ counts) =
    let rest = count_page page counts in if p == page then (p, suc n) ∷ counts else (p, n) ∷ rest

abbrev pub seen_text : ℕ → Bool → TextRecord → TextRecord
seen_text page strong r = record r {
  pages = add_page page r.pages;
  counts = count_page page r.counts;
  strong = strong || r.strong;
}

-- `setdefault` and the update of the record
abbrev pub note_text : ℕ → Text → Bool → List TextRecord → List TextRecord
note_text page norm strong [] =
    seen_text page strong (record { norm = norm; pages = []; counts = []; strong = false }) ∷ []
note_text page norm strong (r ∷ records) =
    let rest = note_text page norm strong records in
    if text_eq r.norm norm then seen_text page strong r ∷ records else r ∷ rest

pub record ImageTraits : Type 0 where
  pub diagonal : Bool
  pub transparent : Bool
  pub centered : Bool
  pub big : Bool

abbrev pub seen_image : ℕ → ImageTraits → ImageRecord → ImageRecord
seen_image page traits r = record r {
  pages = add_page page r.pages;
  counts = count_page page r.counts;
  diagonal = r.diagonal || traits.diagonal;
  transparent = r.transparent || traits.transparent;
  centered = r.centered || traits.centered;
  big = r.big || traits.big;
}

abbrev pub new_image : Text → ImageRecord
new_image digest = record {
  digest = digest;
  pages = [];
  counts = [];
  diagonal = false;
  transparent = false;
  centered = false;
  big = false;
}

abbrev pub note_image : ℕ → Text → ImageTraits → List ImageRecord → List ImageRecord
note_image page digest traits [] = seen_image page traits (new_image digest) ∷ []
note_image page digest traits (r ∷ records) =
    let rest = note_image page digest traits records in
    if text_eq r.digest digest then seen_image page traits r ∷ records else r ∷ rest

pub record Sink : Type 0 where
  pub texts : List TextRecord
  pub images : List ImageRecord

module _ (floats : Floats) where
  -- Diagonal and transparent, or large and one of these
  abbrev pub is_strong : Bool → Bool → floats.F → Bool
  is_strong diagonal transparent size =
      (diagonal && transparent)
      || (diagonal && floats.leq (floats.lit 24 1) size)
      || (transparent && floats.leq (floats.lit 30 1) size)

  -- Plain text is never a candidate, nor what is too short or too long
  abbrev pub is_candidate : Text → Bool → floats.F → Bool
  is_candidate norm diagonal alpha =
      leb 2 (length norm) && leb (length norm) 80 && (diagonal || is_transparent floats alpha)

  -- `_DetectionSink.text`
  unfoldable pub observe_text : ℕ → Text → Bool → floats.F → floats.F → Sink → Sink
  observe_text page norm diagonal alpha size sink =
      if is_candidate norm diagonal alpha
      then record sink {
        texts =
            note_text page norm (is_strong diagonal (is_transparent floats alpha) size) sink.texts;
      }
      else sink

  abbrev pub min4 : floats.F → floats.F → floats.F → floats.F → floats.F
  min4 a b c d = min_of floats (min_of floats (min_of floats a b) c) d

  abbrev pub max4 : floats.F → floats.F → floats.F → floats.F → floats.F
  max4 a b c d = max_of floats (max_of floats (max_of floats a b) c) d

  abbrev pub within4 : floats.F → floats.F → floats.F → floats.F → floats.F → Bool
  within4 x a b c d = floats.leq (min4 a b c d) x && floats.leq x (max4 a b c d)

  -- A coordinate of the corners (0, 0), (1, 0), (0, 1) and (1, 1) of the unit square
  abbrev pub is_around : floats.F → floats.F → floats.F → floats.F → Bool
  is_around center along across offset =
      let at = λ (u v : floats.F).
        floats.add (floats.add (floats.mul along u) (floats.mul across v)) offset in
      let nil = floats.lit 0 1 in
      let one = floats.lit 1 1 in within4 center (at nil nil) (at one nil) (at nil one) (at one one)

  abbrev pub PageBox : Type 0
  PageBox = floats.F × floats.F × floats.F × floats.F

  abbrev pub page_area : PageBox → floats.F
  page_area (x0, y0, x1, y1) =
      max_of floats (floats.mul (floats.sub x1 x0) (floats.sub y1 y0)) (floats.lit 1 1)

  abbrev pub halfway : floats.F → floats.F → floats.F
  halfway a b = floats.div (floats.add a b) (floats.lit 2 1)

  abbrev pub is_centered : Matrix floats.F → PageBox → floats.F → Bool
  is_centered (a, b, c, d, e, f) (x0, y0, x1, y1) ratio =
      is_around (halfway x0 x1) a c e
      && is_around (halfway y0 y1) b d f
      && floats.leq ratio (floats.lit 9 10)

  abbrev pub traits_of : Matrix floats.F → floats.F → Bool → PageBox → ImageTraits
  traits_of ctm alpha has_smask page_box =
      let ratio = floats.div (determinant floats ctm) (page_area page_box) in
      record {
        diagonal = is_diagonal floats ctm;
        transparent = is_transparent floats alpha || has_smask;
        centered = is_centered ctm page_box ratio;
        big = floats.leq (floats.lit 3 20) ratio && floats.leq ratio (floats.lit 9 10);
      }

  -- `_DetectionSink.image`
  unfoldable pub observe_image :
      ℕ → Text → Matrix floats.F → floats.F → Bool → PageBox → Sink → Sink
  unfolding is_diagonal
  observe_image page digest ctm alpha has_smask page_box sink = record sink {
    images = note_image page digest (traits_of ctm alpha has_smask page_box) sink.images;
  }

-- `_covers_enough_pages`
abbrev pub covers_enough_pages : ℕ → List ℕ → Bool
covers_enough_pages total pages = leb 2 total && leb (max 2 ((total + 1) / 2)) (length pages)

abbrev pub is_tiled : List (ℕ × ℕ) → Bool
is_tiled [] = false
is_tiled ((page, n) ∷ counts) = let rest = is_tiled counts in if leb 3 n then true else rest

abbrev pub is_text_target : ℕ → TextRecord → Bool
is_text_target total r = r.strong || is_tiled r.counts || covers_enough_pages total r.pages

abbrev pub is_image_target : ℕ → ImageRecord → Bool
is_image_target total r =
    r.diagonal
    || (r.transparent && (r.centered || r.big || is_tiled r.counts))
    || (covers_enough_pages total r.pages && r.centered && r.big)

abbrev pub max_auto_targets : ℕ
max_auto_targets = 8

-- A stable sort by falling numbers of pages
abbrev pub insert_ranked {ℓ} : {R : Type ℓ} → (R → ℕ) → R → List R → List R
insert_ranked rank r [] = r ∷ []
insert_ranked rank r (q ∷ rs) =
    let rest = insert_ranked rank r rs in if ltb (rank r) (rank q) then q ∷ rest else r ∷ q ∷ rs

abbrev pub ranked {ℓ} : {R : Type ℓ} → (R → ℕ) → List R → List R
ranked rank [] = []
ranked rank (r ∷ rs) = insert_ranked rank r (ranked rank rs)

-- The targets, if there are more than eight those on the most pages
abbrev pub capped {ℓ} : {R : Type ℓ} → (R → ℕ) → (List R → List R) → List R → List R
capped rank set_order rs =
    if ltb max_auto_targets (length rs)
    then take max_auto_targets (ranked rank (set_order rs))
    else rs

-- The order in which a set is run through
pub record SetOrder : Type 0 where
  pub of_texts : List TextRecord → List TextRecord
  pub of_images : List ImageRecord → List ImageRecord

abbrev pub norm_of : TextRecord → Text
norm_of r = r.norm

abbrev pub digest_of : ImageRecord → Text
digest_of r = r.digest

-- `_DetectionSink.decide`: the needles and the digests
unfoldable pub decide : SetOrder → ℕ → Sink → List Text × List Text
decide order total sink = (
  map norm_of
      (capped (λ r. length r.pages) order.of_texts (keep_if (is_text_target total) sink.texts)),
  map digest_of
      (capped (λ r. length r.pages) order.of_images (keep_if (is_image_target total) sink.images)),
)
