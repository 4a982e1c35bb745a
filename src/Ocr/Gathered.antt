-- ===== src/Ocr/Gathered.antt =====
-- The loop over the sampled pages gathers only language packs (app/utils/ocr_language.py).
use tools_backend.Base.{
  ℕ, ◌≡◌, refl, inl, inr, Option, none, some, List, [], ◌∷◌, ◌++◌, ltb, Bool-cases, length, All,
  All-append, Result, ok, err, >>=-eq-ok, Text, codes, text_eq,
}
use tools_backend.Base.Integers.{ℤ}
use tools_backend.Ocr.Words.{Counter, key_of, counter}
use tools_backend.Ocr.Languages.{
  Unicode, script_languages, latin_stopwords, scores_of, best_from, judge, classified, words_of,
  classify_latin_text,
}
use tools_backend.Ocr.Detect.{
  SampleError, command_error, image_error, Sampler, Samples, language_in, with_guess, after_sample,
  after_script, after_report, after_osd, detect_script, sampled,
}
use tools_backend.Ocr.Classified.{best_from-All, judge-eq-some, else-eq-some}
use tools_backend.Ocr.Packs.{IsPack, languages-ArePacks}

-- The classification picks a language of the table.
module _ (P : Text → Type 0) where
  abbrev Named : Text × ℕ → Type 0
  Named s = P (key_of s)

  classified-All :
      (scores : List (Text × ℕ)) (lang : Text)
      → classified scores ≡ some lang
      → All Named scores
      → P lang
  classified-All [] lang h _ = cc
  classified-All ((english, n) ∷ scores) lang h (p, rest) =
      chosen (best_from (english, n) scores) h (best_from-All Named (english, n) scores p rest)
    where
      chosen : (best : Text × ℕ) → judge n best ≡ some lang → Named best → P lang
      chosen (best, m) h p = rw (← (judge-eq-some n m best lang h).0) p

  scores_of-All :
      (counts : Counter) (table : List (Text × List Text))
      → All (λ (s : Text × List Text). P s.0) table
      → All Named (scores_of counts table)
  scores_of-All counts [] _ = tt
  scores_of-All counts ((lang, words) ∷ table) (p, rest) = (p, scores_of-All counts table rest)

classify_latin_text-IsPack :
    (unicode : Unicode) (text lang : Text)
    → classify_latin_text unicode text ≡ some lang
    → IsPack lang
unfolding classify_latin_text
classify_latin_text-IsPack unicode text lang h =
    let counts = counter (words_of unicode text) in
    let (thick, h') =
      else-eq-some (ltb (length (words_of unicode text)) 10)
        (classified (scores_of counts latin_stopwords)) lang h in
    classified-All IsPack (scores_of counts latin_stopwords) lang h'
      (scores_of-All IsPack counts latin_stopwords languages-ArePacks)

-- The loop over the pages gathers only packs.
module _ (unicode : Unicode) (sampler : Sampler) where
  abbrev Guessed : Samples → Type 0
  Guessed s = All IsPack s.latin_langs

  with_guess-Guessed :
      (s : Samples) (text : Text) (o : Option Text)
      → classify_latin_text unicode text ≡ o
      → Guessed s
      → Guessed (with_guess s o)
  with_guess-Guessed s text none e h = h
  with_guess-Guessed s text (some lang) e h =
      All-append IsPack s.latin_langs (lang ∷ []) h
        (classify_latin_text-IsPack unicode text lang e, tt)

  after_sample-Guessed :
      (s s' : Samples) (r : Result SampleError Text)
      → after_sample unicode sampler s r ≡ ok s'
      → Guessed s
      → Guessed s'
  after_sample-Guessed s s' (ok text) e h =
      let same : with_guess s (classify_latin_text unicode text) ≡ s' = cc in
      rw (← same) (with_guess-Guessed s text (classify_latin_text unicode text) refl h)
  after_sample-Guessed s s' (err command_error) e h = let same : s ≡ s' = cc in rw (← same) h
  after_sample-Guessed s s' (err image_error) e h = cc

  after_script-Guessed :
      (image : sampler.Image) (s s' : Samples) (script : Text) (rotate : ℤ) (o : Option Text)
      → after_script unicode sampler image s script rotate o ≡ ok s'
      → Guessed s
      → Guessed s'
  after_script-Guessed image s s' script rotate (some language) e h =
      let same : record s { scripts = s.scripts ++ script ∷ [] } ≡ s' = cc in rw (← same) h
  after_script-Guessed image s s' script rotate none e h =
      elim (Bool-cases (text_eq script (codes "Latin"))) [
        | inl latin ↦
            after_sample-Guessed (record s { scripts = s.scripts ++ script ∷ [] }) s'
              (sampler.sample_text image rotate) (rw latin at e) h
        | inr other ↦
            let kept : ◌≡◌ {A = Result SampleError Samples} (ok s) (ok s') = rw other at e in
            let same : s ≡ s' = cc in rw (← same) h
      ]

  after_osd-Guessed :
      (image : sampler.Image) (s s' : Samples) (o : Option Text)
      → after_osd unicode sampler image s o ≡ ok s'
      → Guessed s
      → Guessed s'
  after_osd-Guessed image s s' none e h = let same : s ≡ s' = cc in rw (← same) h
  after_osd-Guessed image s s' (some output) e h =
      after_report-Guessed image s s' (detect_script output) e h
    where
      after_report-Guessed :
          (image : sampler.Image) (s s' : Samples) (r : Option Text × ℤ)
          → after_report unicode sampler image s r ≡ ok s'
          → Guessed s
          → Guessed s'
      after_report-Guessed image s s' (none, rotate) e h = let same : s ≡ s' = cc in rw (← same) h
      after_report-Guessed image s s' (some script, rotate) e h =
          after_script-Guessed image s s' script rotate (language_in script_languages script) e h

  pub sampled-Guessed :
      (images : List sampler.Image) (s s' : Samples)
      → sampled unicode sampler images s ≡ ok s'
      → Guessed s
      → Guessed s'
  sampled-Guessed [] s s' e h = let same : s ≡ s' = cc in rw (← same) h
  sampled-Guessed (image ∷ images) s s' e h =
      let (s1, e1, e2) = >>=-eq-ok (after_osd unicode sampler image s (sampler.osd image)) _ e in
      sampled-Guessed images s1 s' e2 (after_osd-Guessed image s s1 (sampler.osd image) e1 h)
