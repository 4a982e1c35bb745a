-- ===== src/Base/Integers.antt =====
-- Signed integers over the native numbers, and Python's `int(text)`, `range` and `sorted` on them.
use Prim.Native.Nat.{ℕ, zero, suc, ◌+◌, ◌-◌, ◌*◌}
use mathlib.Core.Bool.{Bool, true, false}
use mathlib.Core.List.{List, [], ◌∷◌}
use mathlib.Core.Option
use mathlib.Core.Option.{Option, none, some}
use mathlib.Core.Path.{◌≡◌}
use native.Mathlib.Omega.{arith}
use tools_backend.Base.Tests.{leb, ◌==◌, if◌then◌else◌}
use tools_backend.Base.Strings.{Text, is_space, is_digit, strip_by}

-- `negsuc n` is -(n + 1).
pub data ℤ : Type 0 where
  pos : ℕ → ℤ
  negsuc : ℕ → ℤ

abbrev pub leb_ℤ : ℤ → ℤ → Bool
leb_ℤ (pos a) (pos b) = leb a b
leb_ℤ (pos _) (negsuc _) = false
leb_ℤ (negsuc _) (pos _) = true
leb_ℤ (negsuc a) (negsuc b) = leb b a

abbrev pub eq_ℤ : ℤ → ℤ → Bool
eq_ℤ (pos a) (pos b) = a == b
eq_ℤ (pos _) (negsuc _) = false
eq_ℤ (negsuc _) (pos _) = false
eq_ℤ (negsuc a) (negsuc b) = a == b

abbrev pub suc_ℤ : ℤ → ℤ
suc_ℤ (pos a) = pos (suc a)
suc_ℤ (negsuc zero) = pos 0
suc_ℤ (negsuc (suc a)) = negsuc a

abbrev pub neg_ℕ : ℕ → ℤ
neg_ℕ zero = pos 0
neg_ℕ (suc n) = negsuc n

-- How many integers there are from the first to the second, both included.
abbrev span : ℤ → ℤ → ℕ
span (pos a) (pos b) = suc b - a
span (pos _) (negsuc _) = 0
span (negsuc a) (pos b) = suc (suc (a + b))
span (negsuc a) (negsuc b) = suc a - b

unfoldable pub count_up : ℕ → ℤ → List ℤ
count_up zero a = []
count_up (suc n) a = a ∷ count_up n (suc_ℤ a)

-- `range(a, b + 1)`
abbrev pub range_through : ℤ → ℤ → List ℤ
range_through a b = count_up (span a b) a

unfoldable pub insert_sorted : ℤ → List ℤ → List ℤ
insert_sorted x [] = x ∷ []
insert_sorted x (y ∷ ys) =
    let rest = insert_sorted x ys in if leb_ℤ x y then x ∷ y ∷ ys else y ∷ rest

-- `sorted(xs)`
unfoldable pub sorted : List ℤ → List ℤ
sorted [] = []
sorted (x ∷ xs) = insert_sorted x (sorted xs)

unfoldable pub member_ℤ : ℤ → List ℤ → Bool
member_ℤ x [] = false
member_ℤ x (y ∷ ys) = let rest = member_ℤ x ys in if eq_ℤ x y then true else rest

-- The digits of `int(text)`: one underscore may stand between two digits. The flag says that a
-- digit has just been read.
unfoldable pub int_digits : ℕ → Bool → Text → Option ℕ
int_digits acc after_digit [] = if after_digit then some acc else none
int_digits acc after_digit (c ∷ t) =
    let digit = int_digits (acc * 10 + (c - 48)) true t in
    let underscore = int_digits acc false t in
    if is_digit c
    then digit
    else if c == b'_'
    then (if after_digit then underscore else none)
    else none

unfoldable pub int_signed : Text → Option ℤ
unfolding int_digits
int_signed [] = none
int_signed (c ∷ t) =
    if c == b'-'
    then Option.map neg_ℕ (int_digits 0 false t)
    else if c == b'+'
    then Option.map pos (int_digits 0 false t)
    else Option.map pos (int_digits 0 false (c ∷ t))

-- `int(text)`; `none` is its ValueError
unfoldable pub int_of : Text → Option ℤ
unfolding int_signed strip_by
int_of t = int_signed (strip_by is_space t)

pub eq_ℤ→eq : (x y : ℤ) → eq_ℤ x y ≡ true → x ≡ y
eq_ℤ→eq (pos a) (pos b) h = ground arith
eq_ℤ→eq (pos a) (negsuc b) h = cc
eq_ℤ→eq (negsuc a) (pos b) h = cc
eq_ℤ→eq (negsuc a) (negsuc b) h = ground arith
