-- ===== src/Files/Download/Names.antt =====
-- The names in a download archive (`_build_zip_response` of app/services/download.py).
use tools_backend.Base.{
  ℕ, ◌≡◌, refl, sym, ap, ◌≢◌, inl, inr, false, not, List, [], ◌∷◌, ◌++◌, arith, Bool-cases,
  Option-cases, length, keep_if, length-append, Text, codes, text_eq, member, text_eq→eq, map, suc,
  true, ◌<◌, ◌≤◌, length-keep_if, zero, ◌∙◌, text_eq_refl,
}
use tools_backend.Base.Digits.{str, str-injective}
use tools_backend.Filenames.Paths.{rpartition}
use tools_backend.Files.Disk.Written.{text_eq_differ}
use tools_backend.Files.Download.{numbered, unused_name, dedupe}

append_cancel_left : (a b c : Text) → a ++ b ≡ a ++ c → b ≡ c
append_cancel_left [] b c h = h
append_cancel_left (x ∷ a) b c h = append_cancel_left a b c cc

append_cancel_right : (a b c : Text) → a ++ c ≡ b ++ c → a ≡ b
append_cancel_right [] [] c h = refl
append_cancel_right [] (y ∷ b) c h =
    let l = ap length h in absurd (omega (arith, l, length-append b c))
append_cancel_right (x ∷ a) [] c h =
    let l = ap length h in absurd (omega (arith, l, length-append a c))
append_cancel_right (x ∷ a) (y ∷ b) c h =
    let same : x ≡ y = cc in
    let tails : a ++ c ≡ b ++ c = cc in let rest : a ≡ b = append_cancel_right a b c tails in cc

-- Different counters make different names.
numbered-injective : (original : Text) (i j : ℕ) → numbered original i ≡ numbered original j → i ≡ j
unfolding numbered
numbered-injective original i j h = elim (Option-cases (rpartition b'.' original)) [
  | inl none_found ↦
      let h' = rw none_found at h in
      str-injective i j (
        append_cancel_right (str i) (str j) (codes ")")
          (append_cancel_left (codes " (") _ _ (append_cancel_left original _ _ h')))
  | inr ((stem, suffix), found) ↦
      let h' = rw found at h in
      str-injective i j (
        append_cancel_right (str i) (str j) (codes ")." ++ suffix)
          (append_cancel_left (codes " (") _ _ (append_cancel_left stem _ _ h')))
]

abbrev without : Text → List Text → List Text
without c used = keep_if (λ u. not (text_eq u c)) used

member-without : (x c : Text) (used : List Text) → x ≢ c → member x (without c used) ≡ member x used
unfolding member
member-without x c [] ne = refl
member-without x c (u ∷ used) ne = elim (Bool-cases (text_eq u c)) [
  | inl same ↦
      let e = text_eq→eq u c same in
      let no : text_eq x u ≡ false = rw e (text_eq_differ x c ne) in
      rw (same, no) (member-without x c used ne)
  | inr other ↦ rw (other, member-without x c used ne)
]

length-without :
    (c : Text) (used : List Text) → member c used ≡ true → length (without c used) < length used
unfolding member
length-without c [] h = cc
length-without c (u ∷ used) h = elim (Bool-cases (text_eq u c)) [
  | inl same ↦ let bound = length-keep_if (λ v. not (text_eq v c)) used in rw same (omega arith)
  | inr other ↦
      let no : text_eq c u ≡ false =
        text_eq_differ c u (λ e. let t = text_eq_refl c in let t' = rw (← e) at other in cc) in
      let later = length-without c used (rw no at h) in rw other (omega arith)
]

module _ (original : Text) where
  -- A name with a smaller counter does not come up again.
  later_name :
      (fuel k n : ℕ) (used : List Text)
      → k < n
      → unused_name fuel used original (numbered original n) (suc n) ≢ numbered original k
  unfolding unused_name
  later_name zero k n used lt e =
      let same = numbered-injective original n k e in absurd (omega arith)
  later_name (suc fuel) k n used lt e = elim (Bool-cases (member (numbered original n) used)) [
    | inl taken ↦ later_name fuel k (suc n) used (omega arith) (rw taken at e)
    | inr free ↦ let same = numbered-injective original n k (rw free at e) in absurd (omega arith)
  ]

  -- So the search does not change when that name is forgotten.
  unused_name-without :
      (fuel k n : ℕ) (used : List Text)
      → k < n
      → unused_name fuel (without (numbered original k) used) original (numbered original n) (suc n)
        ≡ unused_name fuel used original (numbered original n) (suc n)
  unfolding unused_name
  unused_name-without zero k n used lt = refl
  unused_name-without (suc fuel) k n used lt =
      let other : numbered original n ≢ numbered original k =
        λ e. let same = numbered-injective original n k e in absurd (omega arith) in
      rw (
        member-without (numbered original n) (numbered original k) used other,
        unused_name-without fuel k (suc n) used (omega arith),
      )

  -- As much fuel as there are names in use is enough for the numbered names.
  unused_name-fresh :
      (fuel n : ℕ) (used : List Text)
      → length used ≤ fuel
      → member (unused_name fuel used original (numbered original n) (suc n)) used ≡ false
  unfolding unused_name member
  unused_name-fresh zero n [] le = refl
  unused_name-fresh zero n (u ∷ used) le = absurd (ground arith)
  unused_name-fresh (suc fuel) n used le = elim (Bool-cases (member (numbered original n) used)) [
    | inr free ↦ rw (free, free)
    | inl taken ↦
        let shorter = length-without (numbered original n) used taken in
        let found =
          unused_name-fresh fuel (suc n) (without (numbered original n) used) (omega arith) in
        let same = unused_name-without fuel n (suc n) used (omega arith) in
        let ne = later_name fuel n (suc n) used (omega arith) in
        rw taken (sym (member-without _ (numbered original n) used ne) ∙ (rw same at found))
  ]

unused_name-found :
    (original : Text) (used : List Text)
    → member (unused_name (suc (length used)) used original original 1) used ≡ false
unfolding unused_name
unused_name-found original used = elim (Bool-cases (member original used)) [
  | inl taken ↦ rw taken (unused_name-fresh original (length used) 1 used (omega arith))
  | inr free ↦ rw (free, free)
]

-- Every name is new among those before it and the ones in use.
abbrev pub AreNew : List Text → List (Text × Text) → Type 0
AreNew used [] = Unit
AreNew used ((path, arcname) ∷ entries) =
    (member arcname used ≡ false) × AreNew (arcname ∷ used) entries

-- The loop always finds a name that is not in use: the entries of an archive have names that are
-- all different, and they are the given files, none left out, in their order.
pub dedupe-AreNew :
    (used : List Text) (entries : List (Text × Text))
    → AreNew used (dedupe used entries)
      × (map (λ e. e.0) (dedupe used entries) ≡ map (λ e. e.0) entries)
unfolding dedupe
dedupe-AreNew used [] = (tt, refl)
dedupe-AreNew used ((path, original) ∷ entries) =
    let (news, paths) =
      dedupe-AreNew (unused_name (suc (length used)) used original original 1 ∷ used) entries in
    ((unused_name-found original used, news), ap (λ ps. path ∷ ps) paths)
