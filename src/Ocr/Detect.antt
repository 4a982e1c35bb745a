-- ===== src/Ocr/Detect.antt =====
-- The detection of a document's language (app/utils/ocr_language.py).
use tools_backend.Base.{
  ℕ, Bool, true, false, ◌&&◌, ◌||◌, not, Option, none, some, List, [], ◌∷◌, ◌++◌, map, leb,
  if◌then◌else◌, take, Result, ok, err, Text, codes, text_eq, starts_with, member, is_space,
  strip_by, partition, ◌>>=◌,
}
use tools_backend.Base.Integers.{ℤ, pos, int_of}
use tools_backend.Ocr.Words.{Counter, counter, most_common, key_of, find_all, join_by}
use tools_backend.Ocr.Languages.{Unicode, script_languages, classify_latin_text, max_ocr_languages}

-- An exception on the way to a sample's text: that of a command, which the loop catches, or one of
-- Pillow, which nothing catches.
pub data SampleError : Type 0 where
  command_error image_error : SampleError

pub record Sampler : Type 1 where
  pub Image : Type 0
  -- Tesseract's report on a page's script; `none` is a CommandError
  pub osd : Image → Option Text
  -- what it reads in the image, turned back by the degrees given, if any
  pub sample_text : Image → ℤ → Result SampleError Text

-- The characters at which `str.splitlines` ends a line, in ASCII
abbrev pub is_line_end : ℕ → Bool
is_line_end c = (leb 10 c && leb c 13) || (leb 28 c && leb c 30)

abbrev pub value_after_colon : Text × Option Text → Text
value_after_colon (label, none) = []
value_after_colon (label, some value) = strip_by is_space value

abbrev pub rotation_of : Option ℤ → ℤ
rotation_of none = pos 0
rotation_of (some n) = n

-- One line of the report
abbrev pub script_line : Text → Option Text × ℤ → Option Text × ℤ
script_line line (script, rotate) =
    if starts_with (codes "Script:") line
    then (some (value_after_colon (partition b':' line)), rotate)
    else if starts_with (codes "Rotate:") line
    then (script, rotation_of (int_of (value_after_colon (partition b':' line))))
    else (script, rotate)

abbrev pub script_lines : List Text → Option Text × ℤ → Option Text × ℤ
script_lines [] found = found
script_lines (line ∷ lines) found = script_lines lines (script_line line found)

-- `_detect_script`, from what Tesseract prints; empty lines say nothing
unfoldable pub detect_script : Text → Option Text × ℤ
unfolding partition int_of find_all strip_by
detect_script output = script_lines (find_all (λ c. not (is_line_end c)) output) (none, pos 0)

-- `_SCRIPT_LANGUAGES.get(script)`
abbrev pub language_in : List (Text × Text) → Text → Option Text
language_in [] script = none
language_in ((name, language) ∷ table) script =
    let rest = language_in table script in if text_eq name script then some language else rest

pub record LanguageDetection : Type 0 where
  pub language : Text
  pub script : Option Text
  pub detected : Bool

-- The scripts of the sampled pages, and the guesses for those in Latin script
pub record Samples : Type 0 where
  pub scripts : List Text
  pub latin_langs : List Text

abbrev pub with_guess : Samples → Option Text → Samples
with_guess s none = s
with_guess s (some lang) = record s { latin_langs = s.latin_langs ++ lang ∷ [] }

abbrev pub ordered_langs : List Text → List Text
ordered_langs latin_langs =
    let ordered = map key_of (most_common (counter latin_langs)) in
    if member (codes "eng") ordered then ordered else ordered ++ codes "eng" ∷ []

abbrev pub language_of_script : Text → List Text → Option Text → Text
language_of_script script latin_langs (some language) = language
language_of_script script latin_langs none =
    join_by b'+' (take max_ocr_languages (ordered_langs latin_langs))

abbrev pub fallen_back : Text → LanguageDetection
fallen_back fallback = record { language = fallback; script = none; detected = false }

-- What the commonest script decides, if a page has one
abbrev pub decided : Text → List Text → Counter → LanguageDetection
decided fallback latin_langs [] = fallen_back fallback
decided fallback latin_langs ((script, n) ∷ counts) = record {
  language = language_of_script script latin_langs (language_in script_languages script);
  script = some script;
  detected = true;
}

module _ (unicode : Unicode) (sampler : Sampler) where
  abbrev pub after_sample : Samples → Result SampleError Text → Result SampleError Samples
  after_sample s (ok text) = ok (with_guess s (classify_latin_text unicode text))
  after_sample s (err command_error) = ok s
  after_sample s (err image_error) = err image_error

  abbrev pub after_script :
      sampler.Image → Samples → Text → ℤ → Option Text → Result SampleError Samples
  after_script image s script rotate (some language) =
      ok (record s { scripts = s.scripts ++ script ∷ [] })
  after_script image s script rotate none =
      if text_eq script (codes "Latin")
      then after_sample (record s { scripts = s.scripts ++ script ∷ [] })
          (sampler.sample_text image rotate)
      else ok s

  abbrev pub after_report : sampler.Image → Samples → Option Text × ℤ → Result SampleError Samples
  after_report image s (none, rotate) = ok s
  after_report image s (some script, rotate) =
      after_script image s script rotate (language_in script_languages script)

  abbrev pub after_osd : sampler.Image → Samples → Option Text → Result SampleError Samples
  after_osd image s none = ok s
  after_osd image s (some output) = after_report image s (detect_script output)

  -- The loop over the sample pages
  abbrev pub sampled : List sampler.Image → Samples → Result SampleError Samples
  sampled [] s = ok s
  sampled (image ∷ images) s = do s' ← after_osd image s (sampler.osd image); sampled images s'

  abbrev pub detected_in : Text → List sampler.Image → Result SampleError LanguageDetection
  detected_in fallback images = do
    s ← sampled images (record { scripts = []; latin_langs = [] })
    ok (decided fallback s.latin_langs (most_common (counter s.scripts)))

  -- From what `_render_sample` returns; `none` is an exception of it
  unfoldable pub detect_document_language :
      Text → Option (List sampler.Image) → Result SampleError LanguageDetection
  unfolding counter most_common classify_latin_text detect_script member
  detect_document_language fallback none = ok (fallen_back fallback)
  detect_document_language fallback (some images) = detected_in fallback images
