-- ===== src/Feedback.antt =====
-- The public feedback form (app/services/feedback.py, app/services/captcha.py, `count_recent` of
-- app/repositories/feedback.py). HMAC, base64 and JSON are parameters; the notification by e-mail
-- is left out.
pub mod Limit
mod Examples
use mathlib.Core.Option
use tools_backend.Base.{
  ℕ, zero, ◌+◌, ◌-◌, ◌/◌, min, max, ap, Bool, false, ◌&&◌, ◌||◌, not, Option, none, some, List, [],
  ◌∷◌, ◌++◌, ltb, leb, ◌==◌, if◌then◌else◌, length, set, take, drop, any, is_empty, Result, ok, err,
  ◌>>◌, raise_if, Text, codes, text_eq, starts_with, member, is_space, strip_by, lower, split,
  partition, ◌>>=◌,
}
use tools_backend.Base.Integers.{ℤ, pos, eq_ℤ, int_of}
use tools_backend.Exceptions.{AppException, file_too_large_error, SizeLimit}
use tools_backend.Admin.Rows.{Feedback}
use tools_backend.Admin.Users.{normalized, has_email, count_if}

-- What the captcha needs: the signature of a text, and the answer and the expiry in a body (`none`
-- is one of the errors that `verify` catches).
pub record Captcha : Type 0 where
  pub sign : Text → Text
  pub read_body : Text → Option (ℤ × ℕ)

abbrev pub is_solved : ℕ → Text → Option (ℤ × ℕ) → Bool
is_solved now answer none = false
is_solved now answer (some (expected, expires_at)) =
    if ltb expires_at now
    then false
    else elim (int_of answer) [ none ↦ false | some given ↦ eq_ℤ given expected ]

-- `hmac.compare_digest` raises a TypeError, which nothing catches, for a text that is not ASCII.
unfoldable pub compare_digest : Text → Text → Result AppException Bool
compare_digest given expected =
    if any (λ c. ltb 127 c) given
    then err AppException.database_error
    else ok (text_eq given expected)

module _ (captcha : Captcha) where
  -- `token.split(".", 1)`: a token without a dot is refused
  abbrev pub checked_token : ℕ → Text → Text × Option Text → Result AppException Bool
  checked_token now answer (body, none) = ok false
  checked_token now answer (body, some signature) = do
    signed ← compare_digest signature (captcha.sign body)
    ok (signed && is_solved now answer (captcha.read_body body))

  -- The clock in whole seconds, rounded up
  unfoldable pub verify : ℕ → Text → Text → Result AppException Bool
  unfolding partition int_of compare_digest
  verify now token answer =
      if is_empty token then ok false else checked_token now answer (partition b'.' token)

pub record FeedbackSettings : Type 0 where
  pub max_per_day : ℕ
  pub attachment_max_bytes : ℕ
  pub attachment_allowed_types : List Text

pub record Attachment : Type 0 where
  pub filename : Text
  pub content_type : Text
  pub content : List ℕ

abbrev pub jpeg_signature : List ℕ
jpeg_signature = 0xFF ∷ 0xD8 ∷ 0xFF ∷ []

abbrev pub png_signature : List ℕ
png_signature = 0x89 ∷ 0x50 ∷ 0x4E ∷ 0x47 ∷ 13 ∷ 10 ∷ 26 ∷ 10 ∷ []

-- `_IMAGE_SIGNATURES.get(ctype, ())`
abbrev pub image_signatures : Text → List (List ℕ)
image_signatures ctype =
    if text_eq ctype (codes "image/jpeg")
    then jpeg_signature ∷ []
    else if text_eq ctype (codes "image/png")
    then png_signature ∷ []
    else if text_eq ctype (codes "image/webp")
    then codes "RIFF" ∷ []
    else []

abbrev pub looks_like : Text → List ℕ → Bool
looks_like ctype content =
    any (λ signature. starts_with signature content) (image_signatures ctype)
    && not (
        text_eq ctype (codes "image/webp")
        && not (text_eq (take 4 (drop 8 content)) (codes "WEBP")))

abbrev pub first_of : List Text → Text
first_of [] = []
first_of (p ∷ ps) = p

-- `(content_type or "").split(";")[0].strip().lower()`
abbrev pub plain_type : Option Text → Text
plain_type none = []
plain_type (some t) = lower (strip_by is_space (first_of (split b';' t)))

-- `(filename or "screenshot")[:255]`
abbrev pub filename_of : Option Text → Text
filename_of none = codes "screenshot"
filename_of (some name) = if is_empty name then codes "screenshot" else take 255 name

unfoldable pub validate_attachment :
    FeedbackSettings → Option Text → Option Text → List ℕ → Result AppException Attachment
unfolding member strip_by split
validate_attachment settings filename content_type content =
    let ctype = plain_type content_type in
    raise_if (not (member ctype settings.attachment_allowed_types))
      AppException.unsupported_file_type_error
    >> (raise_if (is_empty content) AppException.validation_error
        >> (raise_if (ltb settings.attachment_max_bytes (length content))
              (file_too_large_error SizeLimit.per_file)
            >> (raise_if (not (looks_like ctype content)) AppException.unsupported_file_type_error
                >> ok (record {
                  filename = filename_of filename;
                  content_type = ctype;
                  content = content;
                }))))

-- The fields of a submission.
pub record Submission : Type 0 where
  pub name : Text
  pub email : Text
  pub message : Text
  pub category : Text
  pub subject : Option Text
  pub captcha_token : Text
  pub captcha_answer : Text
  pub honeypot : Option Text
  pub attachment : Option Attachment
  pub client_ip : Option Text
  pub user_id : Option ℕ

-- `FeedbackCategory`
abbrev pub feedback_categories : List Text
feedback_categories =
    codes "general"
    ∷ codes "bug"
    ∷ codes "feature"
    ∷ codes "ui_ux"
    ∷ codes "performance"
    ∷ codes "other"
    ∷ []

abbrev pub same_ip : Option Text → Option Text → Bool
same_ip none ip = false
same_ip (some asked) none = false
same_ip (some asked) (some ip) = if is_empty asked then false else text_eq ip asked

-- The row is from the same address or the same IP, and not older than a day.
abbrev pub is_recent : ℕ → Text → Option Text → Feedback → Bool
is_recent since email client_ip f =
    leb since f.created_at
    && (text_eq (lower f.email) (normalized email) || same_ip client_ip f.client_ip)

unfoldable pub count_recent : List Feedback → ℕ → Text → Option Text → ℕ
unfolding normalized
count_recent rows since email client_ip = count_if (is_recent since email client_ip) rows

abbrev pub since_of : ℕ → ℕ
since_of now = now - 86400

-- `_enforce_daily_limit`; a limit of zero is no limit
unfoldable pub enforce_daily_limit :
    FeedbackSettings → List Feedback → ℕ → Text → Option Text → Result AppException (Unit {0})
unfolding count_recent
enforce_daily_limit settings rows now email client_ip =
    if settings.max_per_day == 0
    then ok tt
    else raise_if (leb settings.max_per_day (count_recent rows (since_of now) email client_ip))
        AppException.feedback_daily_limit_error

abbrev pub is_filled : Option Text → Bool
is_filled none = false
is_filled (some t) = not (is_empty t)

-- `subject or None`
abbrev pub subject_of : Option Text → Option Text
subject_of none = none
subject_of (some t) = if is_empty t then none else some t

abbrev pub name_of : Option Attachment → Option Text
name_of none = none
name_of (some a) = some a.filename

abbrev pub type_of : Option Attachment → Option Text
type_of none = none
type_of (some a) = some a.content_type

abbrev pub size_of : Option Attachment → Option ℕ
size_of none = none
size_of (some a) = some (length a.content)

abbrev pub data_of : Option Attachment → Option Text
data_of none = none
data_of (some a) = some a.content

abbrev pub new_feedback : ℕ → ℕ → Submission → Feedback
new_feedback id now s = record {
  id = id;
  name = strip_by is_space s.name;
  email = normalized s.email;
  subject = subject_of s.subject;
  category = s.category;
  message = strip_by is_space s.message;
  attachment_name = name_of s.attachment;
  attachment_content_type = type_of s.attachment;
  attachment_size = size_of s.attachment;
  attachment_data = data_of s.attachment;
  client_ip = s.client_ip;
  user_id = s.user_id;
  created_at = now;
}

module _ (captcha : Captcha) (settings : FeedbackSettings) where
  -- The checks in front of the insertion, in their order
  unfoldable pub accepted : ℕ → Submission → List Feedback → Result AppException (Unit {0})
  unfolding verify member enforce_daily_limit
  accepted now s rows = do
    solved ← verify captcha now s.captcha_token s.captcha_answer
    human ← raise_if (not solved) AppException.captcha_invalid_error
    known ← raise_if (not (member s.category feedback_categories)) AppException.validation_error
    enforce_daily_limit settings rows now s.email s.client_ip

  -- `submit`: the table behind it. A filled honeypot gets a decoy, which is not stored.
  unfoldable pub submit : ℕ → ℕ → Submission → List Feedback → Result AppException (List Feedback)
  unfolding accepted
  submit id now s rows =
      if is_filled s.honeypot
      then ok rows
      else do allowed ← accepted now s rows; ok (rows ++ new_feedback id now s ∷ [])
