-- ===== src/Feedback/Examples.antt =====
-- A form that allows two submissions a day, with one of them used.
use tools_backend.Base.{◌≡◌, refl, none, some, List, [], ◌∷◌, ◌++◌, err, codes}
use tools_backend.Base.Integers.{pos}
use tools_backend.Exceptions.{AppException}
use tools_backend.Admin.Rows.{Feedback}
use tools_backend.Feedback.{
  Captcha, FeedbackSettings, Submission, submit, verify, new_feedback, validate_attachment,
}

abbrev captcha : Captcha
captcha = record { sign = λ body. codes "sig-" ++ body; read_body = λ body. some (pos 7, 100500) }

abbrev settings : FeedbackSettings
settings = record {
  max_per_day = 2;
  attachment_max_bytes = 1048576;
  attachment_allowed_types = codes "image/png" ∷ [];
}

abbrev submission : Submission
submission = record {
  name = codes " Ann ";
  email = codes "Ann@x.org";
  message = codes "hello";
  category = codes "bug";
  subject = some [];
  captcha_token = codes "b.sig-b";
  captcha_answer = codes " 7 ";
  honeypot = none;
  attachment = none;
  client_ip = some (codes "10.0.0.1");
  user_id = none;
}

abbrev earlier : List Feedback
earlier = new_feedback 0 90000 submission ∷ []

abbrev after : List Feedback
after = earlier ++ new_feedback 1 100000 submission ∷ []

exhausted :
    submit captcha settings 2 100000 submission after ≡ err AppException.feedback_daily_limit_error
unfolding submit
exhausted = refl

not_ascii :
    verify captcha 100000 (b'b' ∷ b'.' ∷ 233 ∷ []) (codes "7") ≡ err AppException.database_error
unfolding verify
not_ascii = refl

not_an_image :
    validate_attachment settings none (some (codes "image/PNG; q=1")) (codes "MZ")
    ≡ err AppException.unsupported_file_type_error
unfolding validate_attachment
not_an_image = refl
