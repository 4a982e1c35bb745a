-- ===== src/Ocr/Classified.antt =====
-- The classification of Latin texts (app/utils/ocr_language.py).
use tools_backend.Base.{
  ℕ, ◌*◌, ◌≤◌, ◌≡◌, refl, ◌⊎◌, inl, inr, Bool, true, false, ◌&&◌, not, Option, none, some, List, [],
  ◌∷◌, arith, ltb, if◌then◌else◌, ltb→lt, Bool-cases, length, All, Text, codes, text_eq, not_ltb→le,
}
use tools_backend.Ocr.Words.{Counter, counter}
use tools_backend.Ocr.Languages.{
  Unicode, latin_stopwords, english_stopwords, other_stopwords, hits, scores_of, best_from, judge,
  classified, words_of, classify_latin_text,
}

module _ (P : Text × ℕ → Type 0) where
  pub best_from-All :
      (best : Text × ℕ) (scores : List (Text × ℕ))
      → P best
      → All P scores
      → P (best_from best scores)
  best_from-All best [] p _ = p
  best_from-All (lang, n) ((other, m) ∷ scores) p (q, rest) = elim (Bool-cases (ltb n m)) [
    | inl better ↦ rw better (best_from-All (other, m) scores q rest)
    | inr worse ↦ rw worse (best_from-All (lang, n) scores p rest)
  ]

-- No score is above the best one.
best_from-max :
    (k : ℕ) (best : Text × ℕ) (scores : List (Text × ℕ))
    → (best_from best scores).1 ≤ k
    → (best.1 ≤ k) × All (λ (s : Text × ℕ). s.1 ≤ k) scores
best_from-max k best [] h = (h, tt)
best_from-max k (lang, n) ((other, m) ∷ scores) h = elim (Bool-cases (ltb n m)) [
  | inl better ↦
      let (up, rest) = best_from-max k (other, m) scores (rw better at h) in
      let lt = ltb→lt n m better in (omega arith, (up, rest))
  | inr worse ↦
      let (up, rest) = best_from-max k (lang, n) scores (rw worse at h) in
      let le = not_ltb→le n m worse in (up, (omega arith, rest))
]

pub else-eq-some {ℓ} :
    {A : Type ℓ} (b : Bool) (x : Option A) (a : A)
    → (if b then none else x) ≡ some a
    → (b ≡ false) × (x ≡ some a)
else-eq-some true x a h = cc
else-eq-some false x a h = (refl, h)

is_clear :
    (same : Bool) (n english : ℕ)
    → (not same && ltb (2 * n) (3 * english)) ≡ false
    → (same ≡ true) ⊎ (3 * english ≤ 2 * n)
is_clear true n english h = inl refl
is_clear false n english h = inr (not_ltb→le (2 * n) (3 * english) h)

pub judge-eq-some :
    (english n : ℕ) (lang chosen : Text)
    → judge english (lang, n) ≡ some chosen
    → (lang ≡ chosen) × (4 ≤ n) × ((text_eq lang (codes "eng") ≡ true) ⊎ (3 * english ≤ 2 * n))
judge-eq-some english n lang chosen h =
    let (enough, h1) =
      else-eq-some (ltb n 4)
        (if not (text_eq lang (codes "eng")) && ltb (2 * n) (3 * english) then none else some lang)
        chosen h in
    let (ahead, h2) =
      else-eq-some (not (text_eq lang (codes "eng")) && ltb (2 * n) (3 * english)) (some lang)
        chosen h1 in
    (cc, not_ltb→le n 4 enough, is_clear (text_eq lang (codes "eng")) n english ahead)

-- The stopwords of a language
abbrev pub stopwords_of : List (Text × List Text) → Text → Option (List Text)
stopwords_of [] lang = none
stopwords_of ((name, words) ∷ table) lang =
    let rest = stopwords_of table lang in if text_eq name lang then some words else rest

abbrev pub Scored : Counter → Text × ℕ → Type 0
Scored counts (lang, n) =
    (words : List Text) × (stopwords_of latin_stopwords lang ≡ some words) × (hits words counts ≡ n)

table-stopwords_of :
    All (λ (s : Text × List Text). stopwords_of latin_stopwords s.0 ≡ some s.1) latin_stopwords
table-stopwords_of =
    (refl, (refl, (refl, (refl, (refl, (refl, (refl, (refl, (refl, (refl, tt))))))))))

scores_of-Scored :
    (counts : Counter) (table : List (Text × List Text))
    → All (λ (s : Text × List Text). stopwords_of latin_stopwords s.0 ≡ some s.1) table
    → All (Scored counts) (scores_of counts table)
scores_of-Scored counts [] _ = tt
scores_of-Scored counts ((lang, words) ∷ table) (p, rest) =
    ((words, p, refl), scores_of-Scored counts table rest)

-- What is known of a language that is chosen with n hits
abbrev pub Leads : Counter → List (Text × ℕ) → ℕ → Text → ℕ → Type 0
Leads counts scores english lang n =
    Scored counts (lang, n)
    × (4 ≤ n)
    × All (λ (s : Text × ℕ). s.1 ≤ n) scores
    × ((text_eq lang (codes "eng") ≡ true) ⊎ (3 * english ≤ 2 * n))

judged-Leads :
    (counts : Counter) (scores : List (Text × ℕ)) (english : ℕ) (best : Text × ℕ) (lang : Text)
    → judge english best ≡ some lang
    → Scored counts best
    → All (λ (s : Text × ℕ). s.1 ≤ best.1) scores
    → (n : ℕ) × Leads counts scores english lang n
judged-Leads counts scores english (best, n) lang h scored top =
    let (same, enough, ahead) = judge-eq-some english n best lang h in
    (n, rw (← same) (scored, enough, top, ahead))

classified-Leads :
    (counts : Counter) (english : Text) (n : ℕ) (scores : List (Text × ℕ)) (lang : Text)
    → classified ((english, n) ∷ scores) ≡ some lang
    → All (Scored counts) ((english, n) ∷ scores)
    → (m : ℕ) × Leads counts ((english, n) ∷ scores) n lang m
classified-Leads counts english n scores lang h (p, rest) =
    let best = best_from (english, n) scores in
    judged-Leads counts ((english, n) ∷ scores) n best lang h
      (best_from-All (Scored counts) (english, n) scores p rest)
      (best_from-max best.1 (english, n) scores (omega arith))

module _ (unicode : Unicode) (text : Text) where
  abbrev pub counts_in : Counter
  counts_in = counter (words_of unicode text)

  -- A text is taken for a language only if it has at least ten words, four or more of them are
  -- stopwords of that language, no other language of the table has more, and the language is English
  -- or has at least half as many again as English.
  pub classify_latin_text-Leads :
      (lang : Text)
      → classify_latin_text unicode text ≡ some lang
      → (10 ≤ length (words_of unicode text))
        × ((n : ℕ) × Leads counts_in
              (scores_of counts_in latin_stopwords)
              (hits english_stopwords counts_in)
              lang
              n)
  unfolding classify_latin_text
  classify_latin_text-Leads lang h =
      let (thick, h1) =
        else-eq-some (ltb (length (words_of unicode text)) 10)
          (classified (scores_of counts_in latin_stopwords)) lang h in
      (
        not_ltb→le (length (words_of unicode text)) 10 thick,
        classified-Leads counts_in (codes "eng") (hits english_stopwords counts_in)
            (scores_of counts_in other_stopwords) lang h1
            (scores_of-Scored counts_in latin_stopwords table-stopwords_of),
      )
