-- ===== src/Files/Types.antt =====
-- The checks of an upload's number of files, extension and leading bytes
-- (app/services/file_validation.py). MAX_FILES_PER_UPLOAD is a parameter.
use tools_backend.Base.{
  ℕ, zero, suc, String, Bool, false, ◌||◌, not, Option, none, some, List, [], ◌∷◌, ltb, ◌==◌,
  if◌then◌else◌, take, Result, ok, err, raise_if, Text, codes, text_eq, starts_with, contains,
  member, ◌>>=◌, ◌>>◌,
}
use tools_backend.Exceptions.{
  AppException, too_many_files_error, unsupported_file_type_error, file_corrupted_error,
}
use tools_backend.Filenames.{file_extension}
use tools_backend.Files.Disk.{Bytes}

abbrev pub sniff_size : ℕ
sniff_size = 1024

abbrev pub is_pdf : Bytes → Bool
is_pdf head = contains (codes "%PDF-") (take sniff_size head)

abbrev pub is_zip : Bytes → Bool
is_zip head = starts_with (80 ∷ 75 ∷ 3 ∷ 4 ∷ []) head

abbrev pub is_ole2 : Bytes → Bool
is_ole2 head = starts_with (208 ∷ 207 ∷ 17 ∷ 224 ∷ 161 ∷ 177 ∷ 26 ∷ 225 ∷ []) head

abbrev pub is_office : Bytes → Bool
is_office head = is_zip head || is_ole2 head

abbrev pub is_jpeg : Bytes → Bool
is_jpeg head = starts_with (255 ∷ 216 ∷ 255 ∷ []) head

abbrev pub is_png : Bytes → Bool
is_png head = starts_with (137 ∷ 80 ∷ 78 ∷ 71 ∷ 13 ∷ 10 ∷ 26 ∷ 10 ∷ []) head

pub record FileTypeSpec : Type 0 where
  pub extension : Text
  pub media_type : Text
  pub matches : Bytes → Bool

abbrev spec : String → String → (Bytes → Bool) → FileTypeSpec
spec extension media_type matches = record {
  extension = codes extension;
  media_type = codes media_type;
  matches = matches;
}

-- `SUPPORTED_TYPES`, in its order
unfoldable pub supported_types : List FileTypeSpec
unfolding contains
supported_types =
    spec "pdf" "application/pdf" is_pdf
    ∷ spec "doc" "application/msword" is_office
    ∷ spec "docx" "application/vnd.openxmlformats-officedocument.wordprocessingml.document"
        is_office
    ∷ spec "xls" "application/vnd.ms-excel" is_office
    ∷ spec "xlsx" "application/vnd.openxmlformats-officedocument.spreadsheetml.sheet" is_office
    ∷ spec "ppt" "application/vnd.ms-powerpoint" is_office
    ∷ spec "pptx" "application/vnd.openxmlformats-officedocument.presentationml.presentation"
        is_office
    ∷ spec "jpg" "image/jpeg" is_jpeg
    ∷ spec "jpeg" "image/jpeg" is_jpeg
    ∷ spec "png" "image/png" is_png
    ∷ []

-- `SUPPORTED_TYPES.get(extension)`
abbrev pub find_spec : Text → List FileTypeSpec → Option FileTypeSpec
find_spec extension [] = none
find_spec extension (s ∷ ss) =
    let rest = find_spec extension ss in if text_eq s.extension extension then some s else rest

-- `max_files or MAX_FILES_PER_UPLOAD`
abbrev pub limit_or : ℕ → Option ℕ → ℕ
limit_or default none = default
limit_or default (some zero) = default
limit_or default (some (suc n)) = suc n

unfoldable pub validate_file_count : ℕ → ℕ → Option ℕ → Result AppException (Unit {0})
validate_file_count default count max_files = do
  raise_if (count == 0) unsupported_file_type_error
  raise_if (ltb (limit_or default max_files) count) too_many_files_error
  ok tt

-- `extension not in (allowed_extensions or set(SUPPORTED_TYPES))`, for a supported extension
abbrev pub is_disallowed : Option (List Text) → Text → Bool
is_disallowed none extension = false
is_disallowed (some []) extension = false
is_disallowed (some (a ∷ allowed)) extension = not (member extension (a ∷ allowed))

abbrev pub spec_or_unsupported : Option FileTypeSpec → Result AppException FileTypeSpec
spec_or_unsupported none = err unsupported_file_type_error
spec_or_unsupported (some s) = ok s

unfoldable pub validate_file_type :
    Text → Bytes → Option (List Text) → Result AppException FileTypeSpec
unfolding supported_types file_extension member
validate_file_type filename head allowed_extensions = do
  found ← spec_or_unsupported (find_spec (file_extension filename) supported_types)
  raise_if (is_disallowed allowed_extensions (file_extension filename)) unsupported_file_type_error
  raise_if (not (found.matches head)) file_corrupted_error
  ok found
