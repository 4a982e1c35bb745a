-- ===== src/Filenames/Paths.antt =====
-- The parts of pathlib that app/utils/filenames.py calls: the name of a POSIX and of a Windows path.
use tools_backend.Base.{
  ℕ, Bool, ◌&&◌, not, Option, none, some, List, [], ◌∷◌, map, ◌==◌, if◌then◌else◌, drop, keep_if,
  is_empty, Text, codes, text_eq, starts_with, upper, split, partition,
}

-- `t.rpartition(sep)`: the parts before and after the last separator, if there is one.
abbrev pub extend_before : ℕ → ℕ → Text → Option (Text × Text) → Option (Text × Text)
extend_before sep c t none = if c == sep then some ([], t) else none
extend_before sep c t (some (before, after)) = some (c ∷ before, after)

unfoldable pub rpartition : ℕ → Text → Option (Text × Text)
rpartition sep [] = none
rpartition sep (c ∷ t) = extend_before sep c t (rpartition sep t)

abbrev is_component : Text → Bool
is_component p = not (is_empty p) && not (text_eq p (codes "."))

abbrev last_or_empty : List Text → Text
last_or_empty [] = []
last_or_empty (p ∷ []) = p
last_or_empty (p ∷ q ∷ ps) = last_or_empty (q ∷ ps)

-- The last component between separators, where empty components and "." do not count.
unfoldable pub last_component : ℕ → Text → Text
unfolding split
last_component sep t = last_or_empty (keep_if is_component (split sep t))

-- Everything behind the first separator, if there is one.
abbrev behind_first : ℕ → Text → Option Text
behind_first sep t = (partition sep t).1

abbrev behind_or_empty : Option Text → Text
behind_or_empty none = []
behind_or_empty (some rest) = rest

abbrev behind_share : Option Text → Text
behind_share none = []
behind_share (some rest) = behind_or_empty (behind_first 92 rest)

abbrev to_backslash : ℕ → ℕ
to_backslash c = if c == b'/' then 92 else c

-- `ntpath.splitroot`, the part behind drive and root, of a path with backslashes only: behind
-- \\server\share\, \\?\UNC\server\share\, a root, or a drive letter.
unfoldable pub windows_tail : Text → Text
unfolding partition
windows_tail [] = []
windows_tail (c ∷ []) = if c == 92 then [] else c ∷ []
windows_tail (c ∷ d ∷ t) =
    if c == 92
    then (if d == 92
        then (if starts_with (codes "\\\\?\\UNC\\") (upper (c ∷ d ∷ t))
            then behind_share (behind_first 92 (drop 6 t))
            else behind_share (behind_first 92 t))
        else d ∷ t)
    else if d == b':'
    then t
    else c ∷ d ∷ t

-- `PureWindowsPath(PurePosixPath(name).name).name`
unfoldable pub base_name : Text → Text
unfolding last_component windows_tail
base_name name = last_component 92 (windows_tail (map to_backslash (last_component b'/' name)))

-- `.suffix` of a path with this name: from the last dot on, unless it is the first or last character.
abbrev suffix_parts : Option (Text × Text) → Text
suffix_parts none = []
suffix_parts (some ([], after)) = []
suffix_parts (some (b ∷ before, [])) = []
suffix_parts (some (b ∷ before, a ∷ after)) = b'.' ∷ a ∷ after

unfoldable pub suffix_of : Text → Text
unfolding rpartition
suffix_of name = suffix_parts (rpartition b'.' name)
