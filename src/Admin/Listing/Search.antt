-- ===== src/Admin/Listing/Search.antt =====
-- The search of the list queries as a search for a substring (app/services/admin.py).
use tools_backend.Base.{
  ℕ, ◌≡◌, refl, Bool, true, false, ◌||◌, [], ◌∷◌, ◌++◌, map, arith, ◌==◌, All, Text, codes,
  starts_with, contains, lower,
}
use tools_backend.Admin.Listing.{
  any_suffix, like, column_like, matches_parts, parts_of, literal, any_text,
}

abbrev pub is_wildcard : ℕ → Bool
is_wildcard c = (c == b'%') || (c == b'_') || (c == b'\\')

-- No character of the text is a wildcard.
abbrev pub IsPlain : Text → Type 0
IsPlain q = All (λ c. is_wildcard c ≡ false) q

parts_of-plain :
    (q p : Text) → IsPlain q → parts_of false (q ++ p) ≡ map literal q ++ parts_of false p
unfolding parts_of
parts_of-plain [] p _ = refl
parts_of-plain (c ∷ q) p (plain, rest) = let ih = parts_of-plain q p rest in ground (arith, ih)

any_suffix-empty : (t : Text) → any_suffix (matches_parts []) t ≡ true
unfolding matches_parts
any_suffix-empty [] = refl
any_suffix-empty (c ∷ t) = any_suffix-empty t

-- Literal parts in front of any text ask for a prefix.
matches_parts-prefix :
    (q t : Text) → matches_parts (map literal q ++ any_text ∷ []) t ≡ starts_with q t
unfolding matches_parts
matches_parts-prefix [] t = any_suffix-empty t
matches_parts-prefix (c ∷ q) [] = refl
matches_parts-prefix (c ∷ q) (d ∷ t) = let ih = matches_parts-prefix q t in ground (arith, ih)

any_suffix-contains :
    (test : Text → Bool) (q t : Text)
    → ((s : Text) → test s ≡ starts_with q s)
    → any_suffix test t ≡ contains q t
unfolding contains
any_suffix-contains test q [] same = same []
any_suffix-contains test q (c ∷ t) same =
    let ih = any_suffix-contains test q t same in
    let here = same (c ∷ t) in ground (arith, ih, here)

-- When the search text has no wildcard, the search finds exactly the columns that contain it, both in
-- lower case.
pub column_like-contains :
    (q column : Text) → IsPlain (lower q) → column_like q column ≡ contains (lower q) (lower column)
unfolding column_like like parts_of matches_parts
column_like-contains q column plain = rw (parts_of-plain (lower q) (codes "%") plain) (
    any_suffix-contains (matches_parts (map literal (lower q) ++ any_text ∷ [])) (lower q)
      (lower column) (matches_parts-prefix (lower q)))
