-- ===== src/Base/Digits.antt =====
-- Decimal numerals: `str(n)` of a number, and its injectivity.
use Prim.Native.Nat.{ℕ, zero, suc, ◌+◌, ◌-◌, ◌*◌, ◌/◌, ◌%◌, ◌<◌}
use mathlib.Core.Path.{◌≡◌, refl, ap, sym, ◌∙◌}
use mathlib.Core.List.{[], ◌∷◌, ◌++◌}
use mathlib.Core.Logic.{inl, inr}
use native.Mathlib.Omega.{arith}
use tools_backend.Base.Tests.{ltb, if◌then◌else◌, Bool-cases}
use tools_backend.Base.Strings.{Text}

-- The digits of `n`; `n < 10 ^ fuel` is enough, and `n < fuel` is more than that.
unfoldable pub digits_from : ℕ → ℕ → Text
digits_from zero n = []
digits_from (suc f) n =
    let rest = digits_from f (n / 10) in
    if ltb n 10 then (48 + n) ∷ [] else rest ++ (48 + n % 10) ∷ []

unfoldable pub str : ℕ → Text
unfolding digits_from
str n = digits_from (suc n) n

-- The number that a text of digits denotes.
unfoldable pub value_from : ℕ → Text → ℕ
value_from acc [] = acc
value_from acc (c ∷ t) = value_from (acc * 10 + (c - 48)) t

value_from-append :
    (acc : ℕ) (s t : Text) → value_from acc (s ++ t) ≡ value_from (value_from acc s) t
unfolding value_from
value_from-append acc [] t = refl
value_from-append acc (c ∷ s) t = value_from-append (acc * 10 + (c - 48)) s t

value_from-digits_from : (f n : ℕ) → n < f → value_from 0 (digits_from f n) ≡ n
unfolding digits_from value_from
value_from-digits_from zero n h = elim h [ ]
value_from-digits_from (suc f) n h = elim (Bool-cases (ltb n 10)) [
  | inl small ↦ rw small (omega arith)
  | inr large ↦
      rw
        (
          large,
          value_from-append 0 (digits_from f (n / 10)) ((48 + n % 10) ∷ []),
          value_from-digits_from f (n / 10) (ground arith),
        )
        (omega arith)
]

-- `str` loses nothing: the numeral denotes the number.
pub value-str : (n : ℕ) → value_from 0 (str n) ≡ n
unfolding str
value-str n = value_from-digits_from (suc n) n (omega arith)

pub str-injective : (m n : ℕ) → str m ≡ str n → m ≡ n
str-injective m n h = sym (value-str m) ∙ ap (value_from 0) h ∙ value-str n
