-- ===== src/Ocr/Supported.antt =====
-- What the detection returns is what the validation accepts (app/utils/ocr_language.py).
use tools_backend.Base.{
  ◌≡◌, refl, inl, inr, Option, none, some, List, [], ◌∷◌, ◌++◌, if◌then◌else◌, Bool-cases, take,
  length-take_le, All, All-append, All-take, ok, >>=-eq-ok, Text, codes, text_eq, member,
}
use tools_backend.Ocr.Words.{Counter, counter, most_common, join_by}
use tools_backend.Ocr.Languages.{
  Unicode, max_ocr_languages, script_languages, validate_ocr_languages,
}
use tools_backend.Ocr.Detect.{
  Sampler, LanguageDetection, language_in, ordered_langs, language_of_script, fallen_back, decided,
  sampled, detect_document_language,
}
use tools_backend.Ocr.Distinct.{
  AreDistinct, keys, counter-AreDistinct, most_common-AreDistinct, snoc-AreDistinct,
  take-AreDistinct, most_common-counter,
}
use tools_backend.Ocr.Packs.{
  IsPack, IsAccepted, validate-join_by, scripts-AreAccepted, languages-ArePacks,
}
use tools_backend.Ocr.Gathered.{sampled-Guessed}

-- The commonest languages of the pages, English last, join to a value that the validation accepts.
ordered_langs-packs :
    (langs : List Text)
    → All IsPack langs
    → All IsPack (ordered_langs langs) × AreDistinct (ordered_langs langs)
ordered_langs-packs langs packs =
    let found = keys (most_common (counter langs)) in
    let all = most_common-counter IsPack langs packs in
    let distinct = most_common-AreDistinct (counter langs) (counter-AreDistinct langs) in
    elim (Bool-cases (member (codes "eng") found)) [
      | inl has ↦ rw has (all, distinct)
      | inr lacks ↦ rw lacks (
        All-append IsPack found (codes "eng" ∷ []) all ((languages-ArePacks).0, tt),
        snoc-AreDistinct (codes "eng") found lacks distinct,
      )
    ]

with_english :
    (found : List Text)
    → (t : Text) × (ts : List Text) × ((if member (codes "eng") found
          then found
          else found ++ codes "eng" ∷ [])
        ≡ t ∷ ts)
unfolding member
with_english [] = (codes "eng", [], refl)
with_english (t ∷ found) = elim (Bool-cases (member (codes "eng") (t ∷ found))) [
  | inl has ↦ (t, found, rw has refl)
  | inr lacks ↦ (t, found ++ codes "eng" ∷ [], rw lacks refl)
]

nonempty-ordered_langs :
    (langs : List Text) → (t : Text) × (ts : List Text) × (ordered_langs langs ≡ t ∷ ts)
nonempty-ordered_langs langs = with_english (keys (most_common (counter langs)))

take-Accepted :
    (langs : List Text)
    → (t : Text) × (ts : List Text) × (langs ≡ t ∷ ts)
    → All IsPack langs
    → AreDistinct langs
    → validate_ocr_languages (join_by b'+' (take max_ocr_languages langs))
      ≡ ok (join_by b'+' (take max_ocr_languages langs))
take-Accepted [] (t, ts, e) packs distinct = cc
take-Accepted (t ∷ ts) _ packs distinct =
    validate-join_by t (take 3 ts) (All-take IsPack 4 (t ∷ ts) packs)
      (take-AreDistinct 4 (t ∷ ts) distinct) (length-take_le 4 (t ∷ ts))

language_in-IsAccepted :
    (table : List (Text × Text)) (script language : Text)
    → All IsAccepted table
    → language_in table script ≡ some language
    → validate_ocr_languages language ≡ ok language
language_in-IsAccepted [] script language _ e = cc
language_in-IsAccepted ((name, l) ∷ table) script language (p, rest) e =
    elim (Bool-cases (text_eq name script)) [
      | inl same ↦
          let found : some l ≡ some language = rw same at e in
          let eq : l ≡ language = cc in rw (← eq) p
      | inr other ↦ language_in-IsAccepted table script language rest (rw other at e)
    ]

language_of_script-IsAccepted :
    (script : Text) (langs : List Text) (o : Option Text)
    → language_in script_languages script ≡ o
    → All IsPack langs
    → validate_ocr_languages (language_of_script script langs o)
      ≡ ok (language_of_script script langs o)
language_of_script-IsAccepted script langs (some language) e packs =
    language_in-IsAccepted script_languages script language scripts-AreAccepted e
language_of_script-IsAccepted script langs none e packs =
    let (all, distinct) = ordered_langs-packs langs packs in
    take-Accepted (ordered_langs langs) (nonempty-ordered_langs langs) all distinct

decided-IsAccepted :
    (fallback : Text) (langs : List Text) (counts : Counter)
    → validate_ocr_languages fallback ≡ ok fallback
    → All IsPack langs
    → validate_ocr_languages (decided fallback langs counts).language
      ≡ ok (decided fallback langs counts).language
decided-IsAccepted fallback langs [] h packs = h
decided-IsAccepted fallback langs ((script, n) ∷ counts) h packs =
    language_of_script-IsAccepted script langs (language_in script_languages script) refl packs

module _ (unicode : Unicode) (sampler : Sampler) where
  -- Whatever the pages look like, the language that the detection settles on is one that the
  -- validation of the options accepts, if this holds of the fallback.
  pub detect_document_language-validate :
      (fallback : Text) (images : Option (List sampler.Image)) (d : LanguageDetection)
      → validate_ocr_languages fallback ≡ ok fallback
      → detect_document_language unicode sampler fallback images ≡ ok d
      → validate_ocr_languages d.language ≡ ok d.language
  unfolding detect_document_language
  detect_document_language-validate fallback none d h e =
      let same : fallen_back fallback ≡ d = cc in rw (← same) h
  detect_document_language-validate fallback (some images) d h e =
      let (s, e1, e2) =
        >>=-eq-ok (sampled unicode sampler images (record { scripts = []; latin_langs = [] })) _
          e in
      let same : decided fallback s.latin_langs (most_common (counter s.scripts)) ≡ d = cc in
      rw (← same) (
        decided-IsAccepted fallback s.latin_langs (most_common (counter s.scripts)) h (
          sampled-Guessed unicode sampler images (record { scripts = []; latin_langs = [] }) s e1
            tt))
