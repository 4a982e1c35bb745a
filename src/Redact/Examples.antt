-- ===== src/Redact/Examples.antt =====
-- A document of two pages, each a list of words, in which a mark stands for the word under it.
use tools_backend.Base.{
  ℕ, ◌<◌, min, max, ◌≡◌, refl, ◌≢◌, inl, inr, true, false, not, none, some, List, [], ◌∷◌, arith,
  leb, ◌==◌, if◌then◌else◌, ==_iff, Bool-cases, keep_if, All, Result, ok, err, Text, codes, text_eq,
  member, text_eq_refl,
}
use tools_backend.Base.Integers.{pos}
use tools_backend.Redact.Areas.{
  page_out_of_range, Floats, Area, RedactError, missing_terms, hex_to_rgb, areas_by_page,
}
use tools_backend.Redact.Steps.{Fitz, terms_of, redact_text}
use tools_backend.Redact.Laws.{Laws}
use tools_backend.Redact.Clean.{IsGone, IsFound, redact_text-IsGone}

abbrev floats : Floats
floats = record {
  F = ℕ;
  leq = leb;
  clamped = λ x. min 100 (max 5 x);
  one = 100;
  is_opaque = λ x. leb 100 x;
}

-- The words of the pages, and the marked words of each page
abbrev Paper : Type 0
Paper = (ℕ → List Text) × (ℕ → List Text)

abbrev found_words : Text → List Text → List Text
found_words t words = keep_if (λ w. text_eq w t) words

abbrev marked_at : ℕ → Text → (ℕ → List Text) → ℕ → List Text
marked_at i word marks j = if i == j then word ∷ marks j else marks j

abbrev without_marks : ℕ → Paper → ℕ → List Text
without_marks i (words, marks) j =
    if i == j then keep_if (λ w. not (member w (marks j))) (words j) else words j

abbrev fitz : Fitz floats
fitz = record {
  Document = Paper;
  Rect = Text;
  Png = Text;
  needs_pass = λ d. false;
  page_count = λ d. 2;
  search_for = λ (words, marks) i t. found_words t (words i);
  clipped = λ d i corners. some (codes "corner");
  obscured = λ d i rect mode. rect;
  add_redact_annot = λ i word fill (words, marks). (words, marked_at i word marks);
  apply_redactions = λ i d. (without_marks i d, d.1);
  insert_image = λ i overlay d. d;
  draw_rect = λ i overlay d. d;
}

abbrev paper : Paper
paper = (
  λ i. if i == 0 then codes "alpha" ∷ codes "beta" ∷ [] else codes "beta" ∷ codes "gamma" ∷ [],
  λ i. [],
)

abbrev HasMark : List Text → Text → Type 0
HasMark marks w = member w marks ≡ true

member_here : (w : Text) (ws : List Text) → member w (w ∷ ws) ≡ true
unfolding member
member_here w ws = rw (text_eq_refl w) refl

member_there : (v w : Text) (ws : List Text) → member v ws ≡ true → member v (w ∷ ws) ≡ true
unfolding member
member_there v w ws h = ground (arith, h)

is_same : (i : ℕ) → (i == i) ≡ true
is_same i = (==_iff i i).1 refl

not_same : (i j : ℕ) → i ≢ j → (i == j) ≡ false
not_same i j h = ground (arith, h)

all_removed :
    (t : Text) (marks words : List Text)
    → All (HasMark marks) (found_words t words)
    → found_words t (keep_if (λ w. not (member w marks)) words) ≡ []
all_removed t marks [] h = refl
all_removed t marks (w ∷ words) h = elim (Bool-cases (text_eq w t)) [
  | inl found ↦ let (p, rest) = rw found at h in rw p (all_removed t marks words rest)
  | inr other ↦
      let rest = rw other at h in
      elim (Bool-cases (member w marks)) [
        | inl gone ↦ rw gone (all_removed t marks words rest)
        | inr kept ↦ rw kept (rw other (all_removed t marks words rest))
      ]
]

laws : Laws fitz
laws = record {
  IsMarked = λ (words, marks) i w. HasMark (marks i) w;
  search_for-add = λ i j rect fill d t. refl;
  add-IsMarked = λ i rect fill d. rw (is_same i) (member_here rect (d.1 i));
  add_keeps = λ i j rect rect' fill d h. keeps i j rect rect' (d.1 j) h;
  search_for-apply_ne = λ i j d t ne. rw (not_same i j ne) refl;
  search_for-apply = λ i d t h. rw (is_same i) (all_removed t (d.1 i) (d.0 i) h);
  search_for-insert = λ i j overlay d t. refl;
  search_for-draw = λ i j overlay d t. refl;
}
  where
    keeps :
        (i j : ℕ) (rect rect' : Text) (marks : List Text)
        → HasMark marks rect'
        → HasMark (if i == j then rect ∷ marks else marks) rect'
    keeps i j rect rect' marks h = elim (Bool-cases (i == j)) [
      | inl same ↦ rw same (member_there rect' rect marks h)
      | inr other ↦ rw other h
    ]

abbrev area : Area ℕ
area = record {
  page = some (pos 2);
  corners = some (10, 10, 20, 20);
  mode = some (codes "Blur");
  color = none;
  opacity = none;
}

abbrev texts : List Text
texts = codes " beta " ∷ [] ∷ codes "alpha" ∷ codes "beta" ∷ []

abbrev saved : Result RedactError (Paper × ℕ) → Paper
saved (ok (d, n)) = d
saved (err e) = paper

redacted : Paper
unfolding redact_text
redacted = saved (redact_text floats fitz texts (area ∷ []) (some paper))

succeeds : redact_text floats fitz texts (area ∷ []) (some paper) ≡ ok (redacted, 4)
unfolding redact_text redacted
succeeds = refl

redact_text-IsGone_example :
    All (IsGone floats fitz laws 2 redacted) (terms_of texts)
    × All (IsFound floats fitz laws 2 paper) (terms_of texts)
    × (0 < 4)
redact_text-IsGone_example =
    redact_text-IsGone floats fitz laws texts (area ∷ []) paper redacted 4 succeeds

asked_terms : terms_of texts ≡ codes "beta" ∷ codes "alpha" ∷ []
unfolding terms_of
asked_terms = refl

not_found :
    redact_text floats fitz (codes "delta" ∷ texts) [] (some paper)
    ≡ err (missing_terms (codes "delta" ∷ []))
unfolding redact_text
not_found = refl

behind_the_end : areas_by_page floats 1 (area ∷ []) ≡ err (page_out_of_range 1)
unfolding areas_by_page
behind_the_end = refl

blue : hex_to_rgb (codes "#0000fF") ≡ (0, 0, 255)
unfolding hex_to_rgb
blue = refl
