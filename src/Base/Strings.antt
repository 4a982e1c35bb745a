-- ===== src/Base/Strings.antt =====
-- Text as the list of its code points, and the Python string methods that the program calls.
use Prim.Native.Nat.{ℕ, ◌+◌, ◌-◌}
use Prim.Native.Char.{code}
use Prim.Native.String.{String}
use mathlib.Core.Path.{◌≡◌, refl}
use mathlib.Core.Bool.{Bool, true, false, ◌&&◌, ◌||◌}
use mathlib.Core.List.{List, [], ◌∷◌, map, reverse}
use mathlib.Core.Option.{Option, none, some}
use native.Mathlib.Omega.{arith}
use tools_backend.Base.Tests.{leb, ◌==◌, if◌then◌else◌}

abbrev pub Text : Type 0
Text = List ℕ

-- The code points of a literal.
abbrev pub codes : String → Text
codes String.[] = []
codes (String.◌∷◌ c s) = code c ∷ codes s

-- `s == t`
abbrev pub text_eq : Text → Text → Bool
text_eq [] [] = true
text_eq [] (_ ∷ _) = false
text_eq (_ ∷ _) [] = false
text_eq (a ∷ s) (b ∷ t) = let rest = text_eq s t in if a == b then rest else false

-- `t.startswith(s)`
abbrev pub starts_with : Text → Text → Bool
starts_with [] t = true
starts_with (_ ∷ _) [] = false
starts_with (a ∷ s) (b ∷ t) = let rest = starts_with s t in if a == b then rest else false

-- `s in t`
unfoldable pub contains : Text → Text → Bool
contains s [] = starts_with s []
contains s (b ∷ t) = let rest = contains s t in if starts_with s (b ∷ t) then true else rest

-- `x in xs` for a collection of texts
unfoldable pub member : Text → List Text → Bool
member s [] = false
member s (t ∷ ts) = let rest = member s ts in if text_eq s t then true else rest

-- Whitespace of the ASCII range, as `str.strip` takes it off.
abbrev pub is_space : ℕ → Bool
is_space c = (leb 9 c && leb c 13) || (leb 28 c && leb c 32)

abbrev pub is_digit : ℕ → Bool
is_digit c = leb 48 c && leb c 57

-- `t.lstrip(chars)`, the set of characters given by its test
abbrev pub lstrip_by : (ℕ → Bool) → Text → Text
lstrip_by p [] = []
lstrip_by p (c ∷ t) = let rest = lstrip_by p t in if p c then rest else c ∷ t

unfoldable pub strip_by : (ℕ → Bool) → Text → Text
strip_by p t = reverse (lstrip_by p (reverse (lstrip_by p t)))

-- `t.lower()` on the ASCII letters
abbrev pub to_lower : ℕ → ℕ
to_lower c = if leb 65 c && leb c 90 then c + 32 else c

abbrev pub lower : Text → Text
lower t = map to_lower t

abbrev pub to_upper : ℕ → ℕ
to_upper c = if leb 97 c && leb c 122 then c - 32 else c

abbrev pub upper : Text → Text
upper t = map to_upper t

-- `t.split(sep)` for a separator of one character
abbrev pub first_piece : ℕ → List Text → List Text
first_piece c [] = (c ∷ []) ∷ []
first_piece c (p ∷ ps) = (c ∷ p) ∷ ps

unfoldable pub split : ℕ → Text → List Text
split sep [] = [] ∷ []
split sep (c ∷ t) = let rest = split sep t in if c == sep then [] ∷ rest else first_piece c rest

-- `t.partition(sep)`: the part before the first separator, and the part after it if there is one
abbrev pub before_after : ℕ → Text × Option Text → Text × Option Text
before_after c (b, a) = (c ∷ b, a)

unfoldable pub partition : ℕ → Text → Text × Option Text
partition sep [] = ([], none)
partition sep (c ∷ t) =
    let rest = partition sep t in if c == sep then ([], some t) else before_after c rest

pub text_eq_refl : (s : Text) → text_eq s s ≡ true
text_eq_refl [] = refl
text_eq_refl (a ∷ s) = ground (arith, text_eq_refl s)

pub text_eq→eq : (s t : Text) → text_eq s t ≡ true → s ≡ t
text_eq→eq [] [] h = refl
text_eq→eq [] (_ ∷ _) h = cc
text_eq→eq (_ ∷ _) [] h = cc
text_eq→eq (a ∷ s) (b ∷ t) h = ground (arith, text_eq→eq s t)
