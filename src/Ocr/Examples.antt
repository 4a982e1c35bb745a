-- ===== src/Ocr/Examples.antt =====
-- A German page, and one that Tesseract cannot read.
use tools_backend.Base.{
  ℕ, ◌≤◌, ◌≡◌, refl, Bool, true, false, ◌&&◌, ◌||◌, none, some, [], ◌∷◌, leb, if◌then◌else◌, length,
  ok, err, Text, codes, lower,
}
use tools_backend.Base.Integers.{ℤ}
use tools_backend.Ocr.Languages.{
  Unicode, duplicate, too_many, english_stopwords, latin_stopwords, hits, scores_of, words_of,
  classify_latin_text, validate_ocr_languages,
}
use tools_backend.Ocr.Detect.{Sampler, LanguageDetection, detect_script, detect_document_language}
use tools_backend.Ocr.Classified.{Leads, counts_in, classify_latin_text-Leads}
use tools_backend.Ocr.Supported.{detect_document_language-validate}

abbrev ascii : Unicode
ascii = record {
  is_letter = λ c. (leb 65 c && leb c 90) || (leb 97 c && leb c 122);
  lowered = λ t. lower t;
}

abbrev german : Text
german = codes "Das ist nicht der Text, den wir suchen, und auch die Bilder sind mit dem Text."

abbrev report : Text
report = codes "Page number: 0\nRotate: 180\nScript: Latin\n"

abbrev sampler : Sampler
sampler = record {
  Image = Bool;
  osd = λ image. if image then some report else none;
  sample_text = λ image rotate. ok german;
}

abbrev found : LanguageDetection
found = record { language = codes "deu+eng"; script = some (codes "Latin"); detected = true }

german_text : classify_latin_text ascii german ≡ some (codes "deu")
unfolding classify_latin_text
german_text = refl

upside_down : detect_script report ≡ (some (codes "Latin"), ℤ.pos 180)
unfolding detect_script
upside_down = refl

german_page :
    detect_document_language ascii sampler (codes "eng") (some (true ∷ false ∷ [])) ≡ ok found
unfolding detect_document_language
german_page = refl

repeated : validate_ocr_languages (codes "eng+eng") ≡ err duplicate
unfolding validate_ocr_languages
repeated = refl

five : validate_ocr_languages (codes "eng+deu+fra+spa+ita") ≡ err too_many
unfolding validate_ocr_languages
five = refl

english : validate_ocr_languages (codes "eng") ≡ ok (codes "eng")
unfolding validate_ocr_languages
english = refl

detect_document_language-validate_example :
    validate_ocr_languages found.language ≡ ok found.language
detect_document_language-validate_example =
    detect_document_language-validate ascii sampler (codes "eng") (some (true ∷ false ∷ [])) found
      english german_page

classify_latin_text-Leads_example :
    (10 ≤ length (words_of ascii german))
    × ((n : ℕ) × Leads
          (counts_in ascii german)
          (scores_of (counts_in ascii german) latin_stopwords)
          (hits english_stopwords (counts_in ascii german))
          (codes "deu")
          n)
classify_latin_text-Leads_example = classify_latin_text-Leads ascii german (codes "deu") german_text
