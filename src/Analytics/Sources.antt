-- ===== src/Analytics/Sources.antt =====
-- Which traffic source a referrer is given (`_detect_source` of app/services/admin.py).
use tools_backend.Base.{
  ℕ, ◌≡◌, refl, true, some, [], ◌∷◌, ◌++◌, arith, Text, codes, starts_with, contains, lower,
  Bool-cases, false, inl, inr, Bool, ◌||◌,
}
use tools_backend.Analytics.{mentions, is_social, detect_source}

starts_with-prefix : (s t u : Text) → starts_with (s ++ t) u ≡ true → starts_with s u ≡ true
starts_with-prefix [] t u h = refl
starts_with-prefix (a ∷ s) t [] h = cc
starts_with-prefix (a ∷ s) t (b ∷ u) h = ground (arith, starts_with-prefix s t u)

contains-prefix : (s t u : Text) → contains (s ++ t) u ≡ true → contains s u ≡ true
unfolding contains
contains-prefix s t [] h = starts_with-prefix s t [] h
contains-prefix s t (b ∷ u) h =
    ground (arith, starts_with-prefix s t (b ∷ u), contains-prefix s t u)

-- A referrer that names "googleads" is always counted as organic search: the test for paid ads that
-- names it comes behind the test for "google".
pub googleads-organic :
    (c : ℕ) (referrer : Text)
    → mentions (lower (c ∷ referrer)) "googleads" ≡ true
    → detect_source (some (c ∷ referrer)) ≡ codes "Organic Search"
unfolding detect_source
googleads-organic c referrer h =
    rw (contains-prefix (codes "google") (codes "ads") (lower (c ∷ referrer)) h)

starts_with-contains : (s u : Text) → starts_with s u ≡ true → contains s u ≡ true
unfolding contains
starts_with-contains s [] h = h
starts_with-contains s (b ∷ u) h = rw h

contains-later : (s u : Text) (b : ℕ) → contains s u ≡ true → contains s (b ∷ u) ≡ true
unfolding contains
contains-later s u b h = ground (arith, h)

starts_with-suffix : (s t u : Text) → starts_with (s ++ t) u ≡ true → contains t u ≡ true
starts_with-suffix [] t u h = starts_with-contains t u h
starts_with-suffix (a ∷ s) t [] h = cc
starts_with-suffix (a ∷ s) t (b ∷ u) h =
    contains-later t u b (starts_with-suffix s t u (ground arith))

contains-suffix : (s t u : Text) → contains (s ++ t) u ≡ true → contains t u ≡ true
unfolding contains
contains-suffix s t [] h = starts_with-suffix s t [] h
contains-suffix s t (b ∷ u) h = elim (Bool-cases (starts_with (s ++ t) (b ∷ u))) [
  | inl now ↦ starts_with-suffix s t (b ∷ u) now
  | inr later ↦ contains-later t u b (contains-suffix s t u (rw later at h))
]

or_second : (a b c d e : Bool) → b ≡ true → (a || b || c || d || e) ≡ true
or_second a b c d e h = ground arith

-- A referrer on reddit.com, unless it names Google, is always counted as social media: the code's
-- branch that makes "reddit" a referral comes behind the test for "t.co", and "reddit.com" holds it.
pub reddit-social :
    (c : ℕ) (referrer : Text)
    → mentions (lower (c ∷ referrer)) "reddit.com" ≡ true
    → mentions (lower (c ∷ referrer)) "google" ≡ false
    → detect_source (some (c ∷ referrer)) ≡ codes "Social Media"
unfolding detect_source
reddit-social c referrer h other =
    let ref = lower (c ∷ referrer) in
    let t_com = contains-suffix (codes "reddi") (codes "t.com") ref h in
    let t_co = contains-prefix (codes "t.co") (codes "m") ref t_com in
    let social : is_social ref ≡ true =
      or_second (mentions ref "facebook") (mentions ref "t.co") (mentions ref "twitter")
        (mentions ref "instagram") (mentions ref "linkedin") t_co in
    rw (other, social)
