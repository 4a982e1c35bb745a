-- ===== src/Filenames.antt =====
-- Filename helpers (app/utils/filenames.py), over code points. Unicode normalisation is a parameter.
mod Examples
pub mod Paths
pub mod Sanitized
pub mod Length
use tools_backend.Base.{
  ℕ, ◌+◌, ◌-◌, ◌*◌, ◌/◌, ◌<◌, max, ap, Bool, ◌||◌, Option, none, some, List, [], ◌∷◌, ◌++◌, map,
  leb, ◌==◌, if◌then◌else◌, length, take, Text, codes, member, lstrip_by, strip_by, lower, upper,
  partition,
}
use tools_backend.Base.Digits.{str}
use tools_backend.Filenames.Paths.{rpartition, base_name, suffix_of}

-- `[<>:"/\|?*\x00-\x1f]`
abbrev pub is_unsafe : ℕ → Bool
is_unsafe c =
    leb c 31
    || c == b'<'
    || c == b'>'
    || c == b':'
    || c == 34
    || c == b'/'
    || c == 92
    || c == b'|'
    || c == b'?'
    || c == b'*'

abbrev pub replace_unsafe : ℕ → ℕ
replace_unsafe c = if is_unsafe c then b'_' else c

abbrev pub space_or_dot : ℕ → Bool
space_or_dot c = c == b' ' || c == b'.'

-- COM1..COM9 and LPT1..LPT9
abbrev numbered_devices : Text → List Text
numbered_devices prefix = map (λ i. prefix ++ str i) (1 ∷ 2 ∷ 3 ∷ 4 ∷ 5 ∷ 6 ∷ 7 ∷ 8 ∷ 9 ∷ [])

abbrev windows_reserved : List Text
windows_reserved =
    codes "CON"
    ∷ codes "PRN"
    ∷ codes "AUX"
    ∷ codes "NUL"
    ∷ (numbered_devices (codes "COM") ++ numbered_devices (codes "LPT"))

abbrev pub max_filename_length : ℕ
max_filename_length = 200

pub is_reserved : Text → Bool
unfolding member str
is_reserved stem = member (upper stem) windows_reserved

abbrev pub unreserved : Text → Text
unreserved stem = if is_reserved stem then stem ++ b'_' ∷ [] else stem

-- `s or fallback`
abbrev pub or_else : Text → Text → Text
or_else [] fallback = fallback
or_else (c ∷ s) fallback = c ∷ s

-- `stem[:max_stem]` with `max_stem = MAX_FILENAME_LENGTH - len(suffix) - 1`. When that is negative
-- the slice stops short of the end of the stem by its magnitude.
abbrev pub trim_stem : Text → Text → Text
trim_stem stem suffix =
    if leb (length suffix + 1) max_filename_length
    then take (max_filename_length - (length suffix + 1)) stem
    else take (length stem - (length suffix + 1 - max_filename_length)) stem

-- The last three steps, on the stem and the suffix that `rpartition(".")` gives.
abbrev pub with_suffix : Text → Text → Text → Text
with_suffix fallback stem [] = or_else (take max_filename_length stem) fallback
with_suffix fallback stem (c ∷ suffix) =
    or_else (trim_stem stem (c ∷ suffix)) fallback ++ b'.' ∷ c ∷ suffix

abbrev pub stem_and_suffix : Text → Option (Text × Text) → Text × Text
stem_and_suffix name none = (name, [])
stem_and_suffix name (some parts) = parts

-- The stem and the extension: no extension where there is no dot.
pub split_name : Text → Text × Text
unfolding rpartition
split_name name = stem_and_suffix name (rpartition b'.' name)

pub finish : Text → Text → Text
unfolding is_reserved split_name
finish fallback [] = fallback
finish fallback (c ∷ name) =
    let (stem, suffix) = split_name (c ∷ name) in with_suffix fallback (unreserved stem) suffix

-- The name without directories, normalised, without unsafe characters and without spaces and dots
-- at its ends.
pub cleaned : (Text → Text) → Text → Text
unfolding strip_by base_name
cleaned nfkc name = strip_by space_or_dot (map replace_unsafe (nfkc (base_name name)))

unfoldable pub sanitize_filename : (Text → Text) → Text → Text → Text
unfolding cleaned finish
sanitize_filename nfkc fallback name = finish fallback (cleaned nfkc name)

unfoldable pub file_extension : Text → Text
unfolding base_name suffix_of
file_extension name = lower (lstrip_by (λ c. c == b'.') (suffix_of (base_name name)))

abbrev stored_name : Text → Text → Text
stored_name hex [] = hex
stored_name hex (c ∷ ext) = hex ++ b'.' ∷ c ∷ ext

-- The hexadecimal digits of the fresh UUID are given.
abbrev pub generate_stored_name : Text → Text → Text
generate_stored_name hex extension = stored_name hex (lower (lstrip_by (λ c. c == b'.') extension))
