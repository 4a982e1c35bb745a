-- ===== src/Watermark/Matrices.antt =====
-- Matrices and alpha values (app/utils/pdf_security.py). Floating-point numbers are a parameter.
use tools_backend.Base.{
  ℕ, Bool, ◌&&◌, not, Option, none, some, List, [], ◌∷◌, map, if◌then◌else◌, take, codes,
}
use tools_backend.Watermark.Objects.{
  Object, number, Objects, Store, objects_of, get, resource_named,
}

-- The arithmetic of the matrices; `lit n d` is the literal n / d, and `angle b a` is
-- `math.degrees(math.atan2(b, a)) % 90.0`.
pub record Floats : Type 1 where
  pub F : Type 0
  pub lit : ℕ → ℕ → F
  pub add : F → F → F
  pub sub : F → F → F
  pub mul : F → F → F
  pub div : F → F → F
  pub abs : F → F
  pub sqrt : F → F
  pub angle : F → F → F
  pub lt : F → F → Bool
  pub leq : F → F → Bool

abbrev pub Matrix : Type 0 → Type 0
Matrix F = F × F × F × F × F × F

module _ (floats : Floats) where
  abbrev pub identity : Matrix floats.F
  identity = let one = floats.lit 1 1 in let nil = floats.lit 0 1 in (one, nil, nil, one, nil, nil)

  abbrev pub number_in : Object floats.F → Option floats.F
  number_in (number x) = some x
  number_in x = none

  abbrev pub matrix_of : List (Option floats.F) → Matrix floats.F
  matrix_of (some a ∷ some b ∷ some c ∷ some d ∷ some e ∷ some f ∷ []) = (a, b, c, d, e, f)
  matrix_of _ = identity

  -- `_matrix`. With fewer than six operands the source goes on with a shorter tuple; such malformed
  -- streams are outside the model, which reads the identity there.
  unfoldable pub matrix : Objects floats.F → Matrix floats.F
  matrix operands = matrix_of (map number_in (take 6 (objects_of operands)))

  -- `_mat_mul`
  unfoldable pub mat_mul : Matrix floats.F → Matrix floats.F → Matrix floats.F
  mat_mul (a1, b1, c1, d1, e1, f1) (a2, b2, c2, d2, e2, f2) =
      let dot = λ (x u y v : floats.F). floats.add (floats.mul x u) (floats.mul y v) in
      (
        dot a1 a2 b1 c2,
        dot a1 b2 b1 d2,
        dot c1 a2 d1 c2,
        dot c1 b2 d1 d2,
        floats.add (dot e1 a2 f1 c2) e2,
        floats.add (dot e1 b2 f1 d2) f2,
      )

  abbrev pub determinant : Matrix floats.F → floats.F
  determinant (a, b, c, d, e, f) = floats.abs (floats.sub (floats.mul a d) (floats.mul b c))

  -- `_mat_scale`
  unfoldable pub mat_scale : Matrix floats.F → floats.F
  mat_scale m = floats.sqrt (determinant m)

  abbrev pub is_tiny : floats.F → Bool
  is_tiny x = floats.lt (floats.abs x) (floats.lit 1 1000000000)

  -- `_is_diagonal`: more than 2.5 degrees away from every multiple of 90
  unfoldable pub is_diagonal : Matrix floats.F → Bool
  is_diagonal (a, b, c, d, e, f) =
      not (is_tiny a && is_tiny b)
      && floats.lt (floats.lit 5 2) (floats.angle b a)
      && floats.lt (floats.angle b a) (floats.lit 175 2)

  abbrev pub min_of : floats.F → floats.F → floats.F
  min_of x y = if floats.lt y x then y else x

  abbrev pub max_of : floats.F → floats.F → floats.F
  max_of x y = if floats.lt x y then y else x

  -- `alpha < _OPAQUE`
  abbrev pub is_transparent : floats.F → Bool
  is_transparent alpha = floats.lt alpha (floats.lit 999 1000)

  abbrev pub alpha_in : floats.F → Option (Object floats.F) → Option (Object floats.F) → floats.F
  alpha_in current (some (number x)) stroke = x
  alpha_in current (some x) stroke = current
  alpha_in current none (some (number x)) = x
  alpha_in current none (some x) = current
  alpha_in current none none = current

  abbrev pub alpha_of_state : Store floats.F → floats.F → Option (Object floats.F) → floats.F
  alpha_of_state store current none = current
  alpha_of_state store current (some state) =
      alpha_in current (get store (codes "/ca") state) (get store (codes "/CA") state)

  -- `_alpha_after_gs`
  unfoldable pub alpha_after_gs :
      Store floats.F → Objects floats.F → Option (Object floats.F) → floats.F → floats.F
  alpha_after_gs store operands resources current =
      alpha_of_state store current (resource_named store (codes "/ExtGState") operands resources)
