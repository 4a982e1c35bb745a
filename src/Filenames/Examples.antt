-- ===== src/Filenames/Examples.antt =====
-- Sanitised names of sample file names; Unicode normalisation leaves these as they are.
use tools_backend.Base.{refl, ◌≢◌, [], All, Text, codes}
use tools_backend.Filenames.{sanitize_filename}
use tools_backend.Filenames.Sanitized.{IsSafe, sanitize_filename-IsSafe}

abbrev sample_name : Text
sample_name = codes "../a<b>.pdf"

sanitize_filename-IsSafe_example :
    (sanitize_filename (λ t. t) (codes "file") sample_name ≢ [])
    × All IsSafe (sanitize_filename (λ t. t) (codes "file") sample_name)
sanitize_filename-IsSafe_example =
    sanitize_filename-IsSafe (λ t. t) (codes "file") sample_name (λ e. cc)
      (refl, (refl, (refl, (refl, tt))))
