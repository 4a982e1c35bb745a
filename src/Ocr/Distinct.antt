-- ===== src/Ocr/Distinct.antt =====
-- Lists of different texts: counting, sorting by counts and `set` (app/utils/ocr_language.py).
use tools_backend.Base.{
  ℕ, zero, suc, ◌≡◌, refl, ap, ◌∙◌, inl, inr, false, List, [], ◌∷◌, ◌++◌, map, arith, ltb,
  Bool-cases, take, All, Text, text_eq, member,
}
use tools_backend.Ocr.Words.{
  Counter, counted_once, counted_all, counter, insert_by_count, most_common, key_of, set_of,
}

abbrev pub AreDistinct : List Text → Type 0
AreDistinct [] = Unit
AreDistinct (t ∷ ts) = (member t ts ≡ false) × AreDistinct ts

pub text_eq_sym : (s t : Text) → text_eq s t ≡ text_eq t s
text_eq_sym [] [] = refl
text_eq_sym [] (_ ∷ _) = refl
text_eq_sym (_ ∷ _) [] = refl
text_eq_sym (a ∷ s) (b ∷ t) = ground (arith, text_eq_sym s t)

-- The two parts of a failed search
member_cons :
    (x t : Text) (ts : List Text)
    → member x (t ∷ ts) ≡ false
    → (text_eq x t ≡ false) × (member x ts ≡ false)
unfolding member
member_cons x t ts h = ground arith

member_cons_ne :
    (x t : Text) (ts : List Text)
    → text_eq x t ≡ false
    → member x ts ≡ false
    → member x (t ∷ ts) ≡ false
unfolding member
member_cons_ne x t ts h k = ground arith

pub set_of-AreDistinct : (ts : List Text) → AreDistinct ts → set_of ts ≡ ts
unfolding set_of
set_of-AreDistinct [] _ = refl
set_of-AreDistinct (t ∷ ts) (new, rest) = rw new (ap (λ r. t ∷ r) (set_of-AreDistinct ts rest))

abbrev pub keys : Counter → List Text
keys counts = map key_of counts

member-counted_once :
    (x w : Text) (counts : Counter)
    → text_eq x w ≡ false
    → member x (keys counts) ≡ false
    → member x (keys (counted_once w counts)) ≡ false
member-counted_once x w [] h k = member_cons_ne x w [] h k
member-counted_once x w ((v, n) ∷ counts) h k =
    let (differs, absent) = member_cons x v (keys counts) k in
    elim (Bool-cases (text_eq v w)) [
      | inl same ↦ rw same (member_cons_ne x v (keys counts) differs absent)
      | inr other ↦ rw other (
          member_cons_ne x v (keys (counted_once w counts)) differs
            (member-counted_once x w counts h absent))
    ]

counted_once-AreDistinct :
    (w : Text) (counts : Counter)
    → AreDistinct (keys counts)
    → AreDistinct (keys (counted_once w counts))
unfolding member
counted_once-AreDistinct w [] _ = (refl, tt)
counted_once-AreDistinct w ((v, n) ∷ counts) (new, rest) = elim (Bool-cases (text_eq v w)) [
  | inl same ↦ rw same (new, rest)
  | inr other ↦
      rw other (member-counted_once v w counts other new, counted_once-AreDistinct w counts rest)
]

counted_all-AreDistinct :
    (counts : Counter) (ws : List Text)
    → AreDistinct (keys counts)
    → AreDistinct (keys (counted_all counts ws))
counted_all-AreDistinct counts [] h = h
counted_all-AreDistinct counts (w ∷ ws) h =
    counted_all-AreDistinct (counted_once w counts) ws (counted_once-AreDistinct w counts h)

pub counter-AreDistinct : (ws : List Text) → AreDistinct (keys (counter ws))
unfolding counter
counter-AreDistinct ws = counted_all-AreDistinct [] ws tt

member-insert_by_count :
    (x w : Text) (n : ℕ) (counts : Counter)
    → text_eq x w ≡ false
    → member x (keys counts) ≡ false
    → member x (keys (insert_by_count (w, n) counts)) ≡ false
member-insert_by_count x w n [] h k = member_cons_ne x w [] h k
member-insert_by_count x w n ((v, m) ∷ counts) h k =
    let (differs, absent) = member_cons x v (keys counts) k in
    elim (Bool-cases (ltb n m)) [
      | inl fewer ↦ rw fewer (
          member_cons_ne x v (keys (insert_by_count (w, n) counts)) differs
            (member-insert_by_count x w n counts h absent))
      | inr most ↦ rw most (member_cons_ne x w (v ∷ keys counts) h k)
    ]

insert_by_count-AreDistinct :
    (w : Text) (n : ℕ) (counts : Counter)
    → member w (keys counts) ≡ false
    → AreDistinct (keys counts)
    → AreDistinct (keys (insert_by_count (w, n) counts))
insert_by_count-AreDistinct w n [] h _ = (h, tt)
insert_by_count-AreDistinct w n ((v, m) ∷ counts) h (new, rest) =
    let (differs, absent) = member_cons w v (keys counts) h in
    elim (Bool-cases (ltb n m)) [
      | inl fewer ↦ rw fewer (
        member-insert_by_count v w n counts (text_eq_sym v w ∙ differs) new,
        insert_by_count-AreDistinct w n counts absent rest,
      )
      | inr most ↦ rw most (h, (new, rest))
    ]

member-most_common :
    (x : Text) (counts : Counter)
    → member x (keys counts) ≡ false
    → member x (keys (most_common counts)) ≡ false
unfolding most_common
member-most_common x [] h = h
member-most_common x ((w, n) ∷ counts) h =
    let (differs, absent) = member_cons x w (keys counts) h in
    member-insert_by_count x w n (most_common counts) differs (member-most_common x counts absent)

pub most_common-AreDistinct :
    (counts : Counter) → AreDistinct (keys counts) → AreDistinct (keys (most_common counts))
unfolding most_common
most_common-AreDistinct [] _ = tt
most_common-AreDistinct ((w, n) ∷ counts) (new, rest) =
    insert_by_count-AreDistinct w n (most_common counts) (member-most_common w counts new)
      (most_common-AreDistinct counts rest)

member-snoc :
    (x y : Text) (ts : List Text)
    → text_eq x y ≡ false
    → member x ts ≡ false
    → member x (ts ++ y ∷ []) ≡ false
member-snoc x y [] h k = member_cons_ne x y [] h k
member-snoc x y (t ∷ ts) h k =
    let (differs, absent) = member_cons x t ts k in
    member_cons_ne x t (ts ++ y ∷ []) differs (member-snoc x y ts h absent)

pub snoc-AreDistinct :
    (y : Text) (ts : List Text) → member y ts ≡ false → AreDistinct ts → AreDistinct (ts ++ y ∷ [])
snoc-AreDistinct y [] h _ = (h, tt)
snoc-AreDistinct y (t ∷ ts) h (new, rest) =
    let (differs, absent) = member_cons y t ts h in
    (member-snoc t y ts (text_eq_sym t y ∙ differs) new, snoc-AreDistinct y ts absent rest)

member-take :
    (n : ℕ) (x : Text) (ts : List Text) → member x ts ≡ false → member x (take n ts) ≡ false
unfolding member
member-take zero x ts h = refl
member-take (suc n) x [] h = refl
member-take (suc n) x (t ∷ ts) h =
    let (differs, absent) = member_cons x t ts h in
    member_cons_ne x t (take n ts) differs (member-take n x ts absent)

pub take-AreDistinct : (n : ℕ) (ts : List Text) → AreDistinct ts → AreDistinct (take n ts)
take-AreDistinct zero ts _ = tt
take-AreDistinct (suc n) [] _ = tt
take-AreDistinct (suc n) (t ∷ ts) (new, rest) = (member-take n t ts new, take-AreDistinct n ts rest)

module _ {ℓ} (P : Text → Type ℓ) where
  counted_once-All :
      (w : Text) (counts : Counter)
      → P w
      → All P (keys counts)
      → All P (keys (counted_once w counts))
  counted_once-All w [] p _ = (p, tt)
  counted_once-All w ((v, n) ∷ counts) p (q, rest) = elim (Bool-cases (text_eq v w)) [
    | inl same ↦ rw same (q, rest)
    | inr other ↦ rw other (q, counted_once-All w counts p rest)
  ]

  counted_all-All :
      (counts : Counter) (ws : List Text)
      → All P (keys counts)
      → All P ws
      → All P (keys (counted_all counts ws))
  counted_all-All counts [] h _ = h
  counted_all-All counts (w ∷ ws) h (p, ps) =
      counted_all-All (counted_once w counts) ws (counted_once-All w counts p h) ps

  insert_by_count-All :
      (w : Text) (n : ℕ) (counts : Counter)
      → P w
      → All P (keys counts)
      → All P (keys (insert_by_count (w, n) counts))
  insert_by_count-All w n [] p _ = (p, tt)
  insert_by_count-All w n ((v, m) ∷ counts) p (q, rest) = elim (Bool-cases (ltb n m)) [
    | inl fewer ↦ rw fewer (q, insert_by_count-All w n counts p rest)
    | inr most ↦ rw most (p, (q, rest))
  ]

  most_common-All : (counts : Counter) → All P (keys counts) → All P (keys (most_common counts))
  unfolding most_common
  most_common-All [] _ = tt
  most_common-All ((w, n) ∷ counts) (p, rest) =
      insert_by_count-All w n (most_common counts) p (most_common-All counts rest)

  pub most_common-counter : (ws : List Text) → All P ws → All P (keys (most_common (counter ws)))
  unfolding counter
  most_common-counter ws h = most_common-All (counted_all [] ws) (counted_all-All [] ws tt h)
