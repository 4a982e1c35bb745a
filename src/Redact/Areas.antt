-- ===== src/Redact/Areas.antt =====
-- The areas of a redaction (`_areas_by_page` and `_hex_to_rgb01` of app/utils/pdf_document.py).
-- Floating-point numbers are a parameter.
use tools_backend.Base.{
  ℕ, zero, suc, ◌+◌, ◌-◌, ◌*◌, Bool, ◌&&◌, ◌||◌, not, Option, none, some, List, [], ◌∷◌, ltb, leb,
  ◌==◌, if◌then◌else◌, is_empty, Result, ok, err, raise_if, Text, codes, member, is_digit,
  lstrip_by, lower, ◌>>=◌,
}
use tools_backend.Base.Integers.{ℤ, pos, negsuc}

-- The numbers of the areas: order, `min(1.0, max(0.05, x))`, 1.0, and `x >= 0.999`
pub record Floats : Type 1 where
  pub F : Type 0
  pub leq : F → F → Bool
  pub clamped : F → F
  pub one : F
  pub is_opaque : F → Bool

-- Red, green and blue, in parts of 255
abbrev pub Rgb : Type 0
Rgb = ℕ × ℕ × ℕ

pub data Fill : Type 0 where
  solid : Rgb → Fill
  unfilled : Fill

pub data RedactError : Type 0 where
  nothing_asked unreadable password_protected no_pages nothing_redacted : RedactError
  malformed_area page_out_of_range empty_area unknown_mode : ℕ → RedactError
  missing_terms : List Text → RedactError

abbrev pub hex_digit : ℕ → Option ℕ
hex_digit c =
    if is_digit c
    then some (c - b'0')
    else if leb b'a' c && leb c b'f'
    then some (c - b'a' + 10)
    else if leb b'A' c && leb c b'F'
    then some (c - b'A' + 10)
    else none

abbrev pub hex_pair : ℕ → ℕ → Option ℕ
hex_pair a b = elim (hex_digit a) [
  | none ↦ none
  | some m ↦ elim (hex_digit b) [ none ↦ none | some n ↦ some (16 * m + n) ]
]

abbrev pub rgb_of : Option ℕ → Option ℕ → Option ℕ → Rgb
rgb_of (some r) (some g) (some b) = (r, g, b)
rgb_of none g b = (0, 0, 0)
rgb_of (some r) none b = (0, 0, 0)
rgb_of (some r) (some g) none = (0, 0, 0)

abbrev pub six_digits : Text → Rgb
six_digits (a ∷ b ∷ c ∷ d ∷ e ∷ f ∷ []) = rgb_of (hex_pair a b) (hex_pair c d) (hex_pair e f)
six_digits _ = (0, 0, 0)

-- `_hex_to_rgb01`: black on bad input. Python would also read signs and spaces between the digits,
-- which the pattern of the request excludes.
unfoldable pub hex_to_rgb : Text → Rgb
hex_to_rgb value = six_digits (lstrip_by (λ c. c == b'#') value)

abbrev pub Corners : Type 0 → Type 0
Corners F = F × F × F × F

-- An area of the request: `none` for what is missing or is no number
pub record Area (F : Type 0) : Type 0 where
  pub page : Option ℤ
  pub corners : Option (Corners F)
  pub mode : Option Text
  pub color : Option Text
  pub opacity : Option F

pub record Spec (F : Type 0) : Type 0 where
  pub rect : Corners F
  pub mode : Text
  pub color : Rgb
  pub opacity : F

abbrev pub area_modes : List Text
area_modes = codes "black" ∷ codes "white" ∷ codes "color" ∷ codes "blur" ∷ codes "pixelate" ∷ []

-- `text or default`
abbrev pub given_or : Text → Option Text → Text
given_or default none = default
given_or default (some t) = if is_empty t then default else t

-- `page - 1`, if the page is one of the document's
abbrev pub page_index : ℕ → ℤ → Option ℕ
page_index count (pos zero) = none
page_index count (pos (suc n)) = if ltb n count then some n else none
page_index count (negsuc n) = none

module _ (floats : Floats) where
  abbrev pub opacity_of : Option floats.F → floats.F
  opacity_of none = floats.one
  opacity_of (some x) = floats.clamped x

  abbrev pub is_degenerate : Corners floats.F → Bool
  is_degenerate (x0, y0, x1, y1) = floats.leq x1 x0 || floats.leq y1 y0

  abbrev pub spec_on :
      ℕ → Area floats.F → Option ℕ → Corners floats.F → Result RedactError (ℕ × Spec floats.F)
  spec_on position area none corners = err (page_out_of_range position)
  spec_on position area (some index) corners = do
    real ← raise_if (is_degenerate corners) (empty_area position)
    let mode = lower (given_or (codes "black") area.mode)
    known ← raise_if (not (member mode area_modes)) (unknown_mode position)
    ok (
      index,
      record {
        rect = corners;
        mode = mode;
        color = hex_to_rgb (given_or (codes "#000000") area.color);
        opacity = opacity_of area.opacity;
      },
    )

  abbrev pub spec_of :
      ℕ
      → ℕ
      → Area floats.F
      → Option ℤ
      → Option (Corners floats.F)
      → Result RedactError (ℕ × Spec floats.F)
  spec_of count position area (some page) (some corners) =
      spec_on position area (page_index count page) corners
  spec_of count position area none corners = err (malformed_area position)
  spec_of count position area (some page) none = err (malformed_area position)

  -- The areas from a position on; the groups are kept as one list, each area with its page
  abbrev pub areas_from :
      ℕ → ℕ → List (Area floats.F) → Result RedactError (List (ℕ × Spec floats.F))
  areas_from count position [] = ok []
  areas_from count position (area ∷ areas) = do
    spec ← spec_of count position area area.page area.corners
    specs ← areas_from count (suc position) areas
    ok (spec ∷ specs)

  unfoldable pub areas_by_page :
      ℕ → List (Area floats.F) → Result RedactError (List (ℕ × Spec floats.F))
  unfolding hex_to_rgb member
  areas_by_page count areas = areas_from count 1 areas

-- `grouped.get(index, [])`
abbrev pub specs_on {ℓ} : {S : Type ℓ} → ℕ → List (ℕ × S) → List S
specs_on index [] = []
specs_on index ((page, spec) ∷ grouped) =
    let rest = specs_on index grouped in if page == index then spec ∷ rest else rest
