-- ===== src/Sorting.antt =====
-- Stable sorting by a rank, and rows that an unordered table holds: with different ranks, the sorted
-- list does not depend on the order in which the rows come.
use mathlib.Core.List.{Permᴰ}
use mathlib.Core.List.Permᴰ
use tools_backend.Base.{
  ℕ, ◌≤◌, ◌≡◌, refl, sym, ap, ◌∙◌, inl, inr, Bool, true, false, List, [], ◌∷◌, arith, leb, ◌==◌,
  if◌then◌else◌, le→leb, Bool-cases, keep_if,
}

module _ {ℓ} {A : Type ℓ} (rank : A → ℕ) where
  abbrev pub insert_by : A → List A → List A
  insert_by x [] = x ∷ []
  insert_by x (y ∷ ys) =
      let rest = insert_by x ys in if leb (rank x) (rank y) then x ∷ y ∷ ys else y ∷ rest

  abbrev pub sort_by : List A → List A
  sort_by [] = []
  sort_by (x ∷ xs) = insert_by x (sort_by xs)

  abbrev pub DiffersFrom : A → List A → Type 0
  DiffersFrom x [] = Unit
  DiffersFrom x (y ∷ ys) = ((rank x == rank y) ≡ false) × DiffersFrom x ys

  -- No two ranks are the same.
  abbrev pub AreDifferent : List A → Type 0
  AreDifferent [] = Unit
  AreDifferent (x ∷ xs) = DiffersFrom x xs × AreDifferent xs

  abbrev pub IsSorted : List A → Type 0
  IsSorted [] = Unit
  IsSorted (x ∷ []) = Unit
  IsSorted (x ∷ y ∷ ys) = (rank x ≤ rank y) × IsSorted (y ∷ ys)

  differs_sym : (x y : A) → (rank x == rank y) ≡ false → (rank y == rank x) ≡ false
  differs_sym x y h = ground arith

  DiffersFrom-perm : (x : A) {ys zs : List A} → Permᴰ ys zs → DiffersFrom x ys → DiffersFrom x zs
  DiffersFrom-perm x Permᴰ.nil h = tt
  DiffersFrom-perm x (Permᴰ.cons e p) (d, h) = (rw (← e) d, DiffersFrom-perm x p h)
  DiffersFrom-perm x (Permᴰ.swap e e') (d, (d', h)) = (rw (← e') d', (rw (← e) d, h))
  DiffersFrom-perm x (Permᴰ.trans p p') h = DiffersFrom-perm x p' (DiffersFrom-perm x p h)

  pub AreDifferent-perm : {xs ys : List A} → Permᴰ xs ys → AreDifferent xs → AreDifferent ys
  AreDifferent-perm Permᴰ.nil h = tt
  AreDifferent-perm (Permᴰ.cons e p) (d, h) =
      (rw (← e) (DiffersFrom-perm _ p d), AreDifferent-perm p h)
  AreDifferent-perm (Permᴰ.swap {a = a} {b = b} {a' = a'} {b' = b'} {l = l} e e')
        ((d, from_a), (from_b, h)) =
      let differ : (rank a' == rank b') ≡ false = rw (← e', ← e) (differs_sym a b d) in
      let from_a' : DiffersFrom a' l = rw (← e') from_b in
      let from_b' : DiffersFrom b' l = rw (← e) from_a in ((differ, from_a'), (from_b', h))
  AreDifferent-perm (Permᴰ.trans p p') h = AreDifferent-perm p' (AreDifferent-perm p h)

  insert_by-below :
      (x y : A) (zs : List A)
      → leb (rank x) (rank y) ≡ true
      → leb (rank y) (rank x) ≡ false
      → insert_by x (insert_by y zs) ≡ insert_by y (insert_by x zs)
  insert_by-below x y [] xy yx = rw (xy, yx) refl
  insert_by-below x y (z ∷ zs) xy yx = elim (Bool-cases (leb (rank y) (rank z))) [
    | inl yz ↦ let xz : leb (rank x) (rank z) ≡ true = ground arith in rw (yz, xz, xy, yx, yz) refl
    | inr zy ↦ elim (Bool-cases (leb (rank x) (rank z))) [
      | inl xz ↦ rw (zy, xz, yx, zy) refl
      | inr zx ↦ rw (zy, zx, zy) (ap (λ r. z ∷ r) (insert_by-below x y zs xy yx))
    ]
  ]

  insert_by-insert_by :
      (x y : A) (zs : List A)
      → (rank x == rank y) ≡ false
      → insert_by x (insert_by y zs) ≡ insert_by y (insert_by x zs)
  insert_by-insert_by x y zs differ = elim (Bool-cases (leb (rank x) (rank y))) [
    | inl below ↦ insert_by-below x y zs below (ground arith)
    | inr above ↦ sym (insert_by-below y x zs (ground arith) above)
  ]

  -- With different ranks, sorting forgets the order.
  pub sort_by-perm : {xs ys : List A} → Permᴰ xs ys → AreDifferent xs → sort_by xs ≡ sort_by ys
  sort_by-perm Permᴰ.nil h = refl
  sort_by-perm (Permᴰ.cons e p) (d, h) = rw (e, sort_by-perm p h) refl
  sort_by-perm (Permᴰ.swap {a = a} {b = b} {l = l} e e') ((d, from_a), h) =
      rw (← e, ← e') (insert_by-insert_by a b (sort_by l) d)
  sort_by-perm (Permᴰ.trans p p') h = sort_by-perm p h ∙ sort_by-perm p' (AreDifferent-perm p h)

  insert_by-first : (x : A) (xs : List A) → IsSorted (x ∷ xs) → insert_by x xs ≡ x ∷ xs
  insert_by-first x [] h = refl
  insert_by-first x (y ∷ ys) (le, h) = rw (le→leb (rank x) (rank y) le) refl

  IsSorted-tail : (x : A) (xs : List A) → IsSorted (x ∷ xs) → IsSorted xs
  IsSorted-tail x [] h = tt
  IsSorted-tail x (y ∷ ys) (le, h) = h

  pub sort_by-IsSorted : (xs : List A) → IsSorted xs → sort_by xs ≡ xs
  sort_by-IsSorted [] h = refl
  sort_by-IsSorted (x ∷ xs) h =
      rw (sort_by-IsSorted xs (IsSorted-tail x xs h)) (insert_by-first x xs h)

pub keep_if-perm {ℓ} :
    {A : Type ℓ} (test : A → Bool) {xs ys : List A}
    → Permᴰ xs ys
    → Permᴰ (keep_if test xs) (keep_if test ys)
keep_if-perm test Permᴰ.nil = Permᴰ.nil
keep_if-perm test (Permᴰ.cons {a = a} e p) = elim (Bool-cases (test a)) [
  | inl kept ↦ rw (← e, kept) (Permᴰ.cons refl (keep_if-perm test p))
  | inr lost ↦ rw (← e, lost) (keep_if-perm test p)
]
keep_if-perm test (Permᴰ.swap {a = a} {b = b} {l = l} e e') =
    rw (← e, ← e')
      (elim (Bool-cases (test a)) [
        | inl kept ↦ elim (Bool-cases (test b)) [
          | inl kept' ↦ rw (kept, kept') (Permᴰ.swap refl refl)
          | inr lost' ↦ rw (kept, lost') (Permᴰ.refl (a ∷ keep_if test l))
        ]
        | inr lost ↦ rw lost (Permᴰ.refl (keep_if test (b ∷ l)))
      ])
keep_if-perm test (Permᴰ.trans p p') = Permᴰ.trans (keep_if-perm test p) (keep_if-perm test p')

-- Sorting only rearranges.
module _ {ℓ} {A : Type ℓ} (rank : A → ℕ) where
  insert_by-rearranges : (x : A) (ys : List A) → Permᴰ (insert_by rank x ys) (x ∷ ys)
  insert_by-rearranges x [] = Permᴰ.refl (x ∷ [])
  insert_by-rearranges x (y ∷ ys) = elim (Bool-cases (leb (rank x) (rank y))) [
    | inl below ↦ rw below (Permᴰ.refl (x ∷ y ∷ ys))
    | inr above ↦
        rw above (Permᴰ.trans (Permᴰ.cons refl (insert_by-rearranges x ys)) (Permᴰ.swap refl refl))
  ]

  pub sort_by-rearranges : (xs : List A) → Permᴰ (sort_by rank xs) xs
  sort_by-rearranges [] = Permᴰ.nil
  sort_by-rearranges (x ∷ xs) =
      Permᴰ.trans (insert_by-rearranges x (sort_by rank xs))
        (Permᴰ.cons refl (sort_by-rearranges xs))
