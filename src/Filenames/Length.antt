-- ===== src/Filenames/Length.antt =====
-- The length cap of `sanitize_filename` (app/utils/filenames.py).
use tools_backend.Base.{
  ℕ, ◌+◌, ◌-◌, ◌≤◌, ◌<◌, ◌≡◌, true, [], ◌∷◌, arith, leb, le→leb, length, take, length-append,
  length-take_le, Text,
}
use tools_backend.Filenames.Paths.{rpartition}
use tools_backend.Filenames.{
  or_else, trim_stem, with_suffix, unreserved, split_name, finish, max_filename_length, cleaned,
  sanitize_filename, rpartition,
}

length-or_else :
    (s fallback : Text) (n : ℕ)
    → length s ≤ n
    → length fallback ≤ n
    → length (or_else s fallback) ≤ n
length-or_else [] fallback n h k = k
length-or_else (c ∷ s) fallback n h k = h

length-with_suffix :
    (fallback stem suffix : Text)
    → length fallback + length suffix + 1 ≤ max_filename_length
    → length (with_suffix fallback stem suffix) ≤ max_filename_length
length-with_suffix fallback stem [] h =
    length-or_else (take max_filename_length stem) fallback max_filename_length
      (length-take_le max_filename_length stem) (omega arith)
length-with_suffix fallback stem (c ∷ suffix) h =
    let room = max_filename_length - (length (c ∷ suffix) + 1) in
    let fits : leb (length (c ∷ suffix) + 1) max_filename_length ≡ true =
      le→leb _ _ (omega arith) in
    rw fits (
      omega (
        arith,
        length-append (or_else (take room stem) fallback) (b'.' ∷ c ∷ suffix),
        length-or_else (take room stem) fallback room (length-take_le room stem) (omega arith),
      ))

length-finish :
    (fallback name : Text)
    → length fallback + length (split_name name).1 + 1 ≤ max_filename_length
    → length (finish fallback name) ≤ max_filename_length
unfolding finish
length-finish fallback [] h = omega arith
length-finish fallback (c ∷ name) h =
    length-with_suffix fallback (unreserved (split_name (c ∷ name)).0) (split_name (c ∷ name)).1 h

-- When the fallback and the extension leave room for each other, a sanitised name has at most
-- MAX_FILENAME_LENGTH characters.
pub length-sanitize_filename :
    (nfkc : Text → Text) (fallback name : Text)
    → length fallback + length (split_name (cleaned nfkc name)).1 + 1 ≤ max_filename_length
    → length (sanitize_filename nfkc fallback name) ≤ max_filename_length
unfolding sanitize_filename
length-sanitize_filename nfkc fallback name h = length-finish fallback (cleaned nfkc name) h

long-with_suffix :
    (fallback stem suffix : Text)
    → max_filename_length ≤ length suffix
    → max_filename_length < length (with_suffix fallback stem suffix)
long-with_suffix fallback stem [] h = absurd (omega arith)
long-with_suffix fallback stem (c ∷ suffix) h =
    omega
      (arith, length-append (or_else (trim_stem stem (c ∷ suffix)) fallback) (b'.' ∷ c ∷ suffix))

long-finish :
    (fallback name : Text)
    → max_filename_length ≤ length (split_name name).1
    → max_filename_length < length (finish fallback name)
unfolding finish
long-finish fallback [] h = absurd (unfold split_name rpartition in omega arith)
long-finish fallback (c ∷ name) h =
    long-with_suffix fallback (unreserved (split_name (c ∷ name)).0) (split_name (c ∷ name)).1 h

-- Whenever the extension has at least MAX_FILENAME_LENGTH characters, the sanitised name is longer
-- than MAX_FILENAME_LENGTH: the cap is missed.
pub long_extension-exceeds_cap :
    (nfkc : Text → Text) (fallback name : Text)
    → max_filename_length ≤ length (split_name (cleaned nfkc name)).1
    → max_filename_length < length (sanitize_filename nfkc fallback name)
unfolding sanitize_filename
long_extension-exceeds_cap nfkc fallback name h = long-finish fallback (cleaned nfkc name) h
