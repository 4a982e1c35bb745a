-- ===== src/Ocr/Languages.antt =====
-- The language packs and the classification of Latin texts (app/utils/ocr_language.py).
use tools_backend.Base.{
  ℕ, ◌+◌, ◌*◌, String, Bool, ◌&&◌, not, Option, none, some, List, [], ◌∷◌, map, ltb, ◌==◌,
  if◌then◌else◌, length, keep_if, is_empty, Result, ok, ◌>>◌, raise_if, Text, codes, text_eq,
  member, split, ◌>>=◌,
}
use tools_backend.Ocr.Words.{Counter, counter, find_all, set_of}

-- What the classification asks of Unicode: whether `[^\W\d_]` has a character, and `str.lower`.
pub record Unicode : Type 0 where
  pub is_letter : ℕ → Bool
  pub lowered : Text → Text

abbrev pub supported_ocr_languages : List Text
supported_ocr_languages =
    codes "eng"
    ∷ codes "ara"
    ∷ codes "chi_sim"
    ∷ codes "chi_tra"
    ∷ codes "deu"
    ∷ codes "ell"
    ∷ codes "fra"
    ∷ codes "heb"
    ∷ codes "hin"
    ∷ codes "ita"
    ∷ codes "jpn"
    ∷ codes "kor"
    ∷ codes "nld"
    ∷ codes "pol"
    ∷ codes "por"
    ∷ codes "rus"
    ∷ codes "spa"
    ∷ codes "tha"
    ∷ codes "tur"
    ∷ codes "urd"
    ∷ codes "vie"
    ∷ []

abbrev pub max_ocr_languages : ℕ
max_ocr_languages = 4

-- `_SCRIPT_LANGUAGES`
abbrev pub script_languages : List (Text × Text)
script_languages =
    (codes "Arabic", codes "ara")
    ∷ (codes "Cyrillic", codes "rus")
    ∷ (codes "Devanagari", codes "hin")
    ∷ (codes "Greek", codes "ell")
    ∷ (codes "Hebrew", codes "heb")
    ∷ (codes "Thai", codes "tha")
    ∷ (codes "Han", codes "chi_sim+chi_tra")
    ∷ (codes "HanS", codes "chi_sim")
    ∷ (codes "HanT", codes "chi_tra")
    ∷ (codes "HanS_vert", codes "chi_sim")
    ∷ (codes "HanT_vert", codes "chi_tra")
    ∷ (codes "Japanese", codes "jpn")
    ∷ (codes "Japanese_vert", codes "jpn")
    ∷ (codes "Katakana", codes "jpn")
    ∷ (codes "Hiragana", codes "jpn")
    ∷ (codes "Hangul", codes "kor")
    ∷ (codes "Hangul_vert", codes "kor")
    ∷ []

-- The words of a literal
unfoldable pub stopwords : String → List Text
unfolding split
stopwords words = split 32 (codes words)

abbrev pub english_stopwords : List Text
english_stopwords =
    stopwords "the and was are this that with from have been will your which their would there"

abbrev pub other_stopwords : List (Text × List Text)
other_stopwords =
    (
      codes "deu",
      stopwords
          "der die das und ist nicht mit ein eine für auf den dem sie wir werden wurde bitte sind einen oder auch beim über",
    )
    ∷ (
      codes "fra",
      stopwords
          "les des est une dans pour que qui avec sur pas nous vous être par cette aux ont été plus votre",
    )
    ∷ (
      codes "spa",
      stopwords
          "los las una para con por del como más pero sus este esta hay muy fue entre también usted",
    )
    ∷ (
      codes "ita",
      stopwords
          "gli che per sono della delle una questo questa anche più nel alla degli come sia stato essere",
    )
    ∷ (
      codes "por",
      stopwords
          "uma para com não por dos das mais este esta são você está foi como pelo seus também",
    )
    ∷ (
      codes "nld",
      stopwords
          "het een van dat niet met voor aan zijn deze ook naar wordt worden bij als maar door onze",
    )
    ∷ (
      codes "pol",
      stopwords "nie się jest że jak ale przez dla tego oraz jego były został które można bardzo",
    )
    ∷ (
      codes "tur",
      stopwords "bir bu için ile olarak daha çok gibi olan kadar sonra ancak değil var tarafından",
    )
    ∷ (codes "vie", stopwords "của và các cho không được người trong những này với ngày chúng tôi")
    ∷ []

-- `_LATIN_STOPWORDS`
abbrev pub latin_stopwords : List (Text × List Text)
latin_stopwords = (codes "eng", english_stopwords) ∷ other_stopwords

pub data LanguageError : Type 0 where
  unsupported : List Text → LanguageError
  duplicate too_many : LanguageError

-- The error that `validate_ocr_languages` raises for the parts of a value, if any
abbrev pub parts_error : List Text → Result LanguageError (Unit {0})
parts_error parts = do
  let unknown = keep_if (λ part. not (member part supported_ocr_languages)) parts
  known ← raise_if (not (is_empty unknown)) (unsupported unknown)
  single ← raise_if (not (length parts == length (set_of parts))) duplicate
  raise_if (ltb max_ocr_languages (length parts)) too_many

unfoldable pub validate_ocr_languages : Text → Result LanguageError Text
unfolding member set_of split
validate_ocr_languages language = parts_error (split b'+' language) >> ok language

-- `scores[lang]`: the words of a text that are stopwords of a language, with their counts
abbrev pub hits : List Text → Counter → ℕ
hits words [] = 0
hits words ((w, n) ∷ counts) =
    let rest = hits words counts in if member w words then n + rest else rest

abbrev pub scores_of : Counter → List (Text × List Text) → List (Text × ℕ)
scores_of counts [] = []
scores_of counts ((lang, words) ∷ languages) =
    (lang, hits words counts) ∷ scores_of counts languages

-- `max(scores.items(), key=...)`: the first of the best
abbrev pub best_from : Text × ℕ → List (Text × ℕ) → Text × ℕ
best_from best [] = best
best_from (lang, n) ((other, m) ∷ scores) =
    best_from (if ltb n m then (other, m) else (lang, n)) scores

-- The first of the scores is that of English.
abbrev pub judge : ℕ → Text × ℕ → Option Text
judge english (lang, n) =
    if ltb n 4
    then none
    else if not (text_eq lang (codes "eng")) && ltb (2 * n) (3 * english)
    then none
    else some lang

-- The scores are never empty, as the table is not.
abbrev pub classified : List (Text × ℕ) → Option Text
classified [] = none
classified ((english, n) ∷ scores) = judge n (best_from (english, n) scores)

module _ (unicode : Unicode) where
  abbrev pub words_of : Text → List Text
  unfolding find_all
  words_of text = map unicode.lowered (find_all unicode.is_letter text)

  unfoldable pub classify_latin_text : Text → Option Text
  unfolding find_all counter member stopwords
  classify_latin_text text =
      if ltb (length (words_of text)) 10
      then none
      else classified (scores_of (counter (words_of text)) latin_stopwords)
