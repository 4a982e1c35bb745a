-- ===== src/Watermark/Decided.antt =====
-- What the analysis can decide to remove (`decide` of app/utils/pdf_security.py).
use mathlib.Core.List.{Permᴰ}
use tools_backend.Base.{
  ℕ, ◌≤◌, ◌≡◌, refl, ◌⊎◌, inl, inr, Bool, true, false, ◌&&◌, ◌||◌, List, [], ◌∷◌, map, ltb, leb,
  leb→le, Bool-cases, length, keep_if, length-take_le, length-map, All, All-take, Text, text_eq,
  and_parts, not_ltb→le,
}
use tools_backend.Watermark.Matrices.{Floats, Matrix, is_transparent}
use tools_backend.Watermark.Sink.{
  TextRecord, ImageRecord, Sink, note_text, is_strong, is_candidate, observe_text, observe_image,
  PageBox, is_text_target, is_image_target, max_auto_targets, insert_ranked, ranked, capped,
  SetOrder, norm_of, digest_of, decide,
}

module _ {ℓ κ} {R : Type ℓ} (P : R → Type κ) where
  All-perm : {xs ys : List R} → Permᴰ xs ys → All P ys → All P xs
  All-perm Permᴰ.nil h = tt
  All-perm (Permᴰ.cons e p) (q, h) = (rw e q, All-perm p h)
  All-perm (Permᴰ.swap e e') (q, (r, h)) = (rw e r, (rw e' q, h))
  All-perm (Permᴰ.trans p p') h = All-perm p (All-perm p' h)

  All-keep_if : (test : R → Bool) (xs : List R) → All P xs → All P (keep_if test xs)
  All-keep_if test [] h = tt
  All-keep_if test (x ∷ xs) (p, h) = elim (Bool-cases (test x)) [
    | inl kept ↦ rw kept (p, All-keep_if test xs h)
    | inr lost ↦ rw lost (All-keep_if test xs h)
  ]

  All-insert_ranked :
      (rank : R → ℕ) (r : R) (rs : List R) → P r → All P rs → All P (insert_ranked rank r rs)
  All-insert_ranked rank r [] p h = (p, tt)
  All-insert_ranked rank r (q ∷ rs) p (p', h) = elim (Bool-cases (ltb (rank r) (rank q))) [
    | inl below ↦ rw below (p', All-insert_ranked rank r rs p h)
    | inr above ↦ rw above (p, (p', h))
  ]

  All-ranked : (rank : R → ℕ) (rs : List R) → All P rs → All P (ranked rank rs)
  All-ranked rank [] h = tt
  All-ranked rank (r ∷ rs) (p, h) =
      All-insert_ranked rank r (ranked rank rs) p (All-ranked rank rs h)

  All-capped :
      (rank : R → ℕ) (set_order : List R → List R) (rs : List R)
      → Permᴰ (set_order rs) rs
      → All P rs
      → All P (capped rank set_order rs)
  All-capped rank set_order rs perm h = elim (Bool-cases (ltb max_auto_targets (length rs))) [
    | inl many ↦ rw many (
        All-take P max_auto_targets (ranked rank (set_order rs))
          (All-ranked rank (set_order rs) (All-perm perm h)))
    | inr few ↦ rw few h
  ]

  All-map {μ} :
      {S : Type μ} (Q : S → Type κ) (f : R → S) (xs : List R)
      → ((x : R) → P x → Q (f x))
      → All P xs
      → All Q (map f xs)
  All-map Q f [] g h = tt
  All-map Q f (x ∷ xs) g (p, h) = (g x p, All-map Q f xs g h)

length-capped {ℓ} :
    {R : Type ℓ} (rank : R → ℕ) (set_order : List R → List R) (rs : List R)
    → length (capped rank set_order rs) ≤ max_auto_targets
length-capped rank set_order rs = elim (Bool-cases (ltb max_auto_targets (length rs))) [
  | inl many ↦ rw many (length-take_le max_auto_targets (ranked rank (set_order rs)))
  | inr few ↦ rw few (not_ltb→le max_auto_targets (length rs) few)
]

-- The order of a set only rearranges it.
pub record Rearranges (order : SetOrder) : Type 0 where
  pub texts_perm : (rs : List TextRecord) → Permᴰ (order.of_texts rs) rs
  pub images_perm : (rs : List ImageRecord) → Permᴰ (order.of_images rs) rs

or_parts : (a b : Bool) → (a || b) ≡ true → (a ≡ true) ⊎ (b ≡ true)
or_parts true b h = inl refl
or_parts false b h = inr h

note_text-All {κ} :
    (P : Text → Type κ) (page : ℕ) (norm : Text) (strong : Bool) (records : List TextRecord)
    → P norm
    → All (λ (r : TextRecord). P r.norm) records
    → All (λ (r : TextRecord). P r.norm) (note_text page norm strong records)
note_text-All P page norm strong [] p h = (p, tt)
note_text-All P page norm strong (r ∷ records) p (q, h) = elim (Bool-cases (text_eq r.norm norm)) [
  | inl same ↦ rw same (q, h)
  | inr other ↦ rw other (q, note_text-All P page norm strong records p h)
]

module _ (floats : Floats) where
  -- The calls that the analysis pass makes
  pub data Observation : Type 0 where
    text : ℕ → Text → Bool → floats.F → floats.F → Observation
    image : ℕ → Text → Matrix floats.F → floats.F → Bool → PageBox floats → Observation

  abbrev pub observe : Observation → Sink → Sink
  unfolding observe_text observe_image
  observe (text page norm diagonal alpha size) s =
      observe_text floats page norm diagonal alpha size s
  observe (image page digest ctm alpha has_smask page_box) s =
      observe_image floats page digest ctm alpha has_smask page_box s

  abbrev pub observe_all : List Observation → Sink → Sink
  observe_all [] s = s
  observe_all (o ∷ os) s = observe_all os (observe o s)

  -- The text was shown with a trait of a watermark, and is not too short or too long.
  abbrev pub Shows : Text → Observation → Type 0
  Shows norm (text page shown diagonal alpha size) =
      (shown ≡ norm)
      × (2 ≤ length norm)
      × (length norm ≤ 80)
      × ((diagonal ≡ true) ⊎ (is_transparent floats alpha ≡ true))
  Shows norm (image page digest ctm alpha has_smask page_box) = ⊥

  abbrev pub Observed : Text → List Observation → Type 0
  Observed norm [] = ⊥
  Observed norm (o ∷ os) = Shows norm o ⊎ Observed norm os

  candidate :
      (norm : Text) (diagonal : Bool) (alpha : floats.F)
      → is_candidate floats norm diagonal alpha ≡ true
      → (2 ≤ length norm)
        × (length norm ≤ 80)
        × ((diagonal ≡ true) ⊎ (is_transparent floats alpha ≡ true))
  candidate norm diagonal alpha h =
      let (sized, trait) =
        and_parts (leb 2 (length norm) && leb (length norm) 80)
          (diagonal || is_transparent floats alpha) h in
      let (enough, few) = and_parts (leb 2 (length norm)) (leb (length norm) 80) sized in
      (
        leb→le 2 (length norm) enough,
        leb→le (length norm) 80 few,
        or_parts diagonal (is_transparent floats alpha) trait,
      )

  observe-All {κ} :
      (P : Text → Type κ) (o : Observation) (s : Sink)
      → ((norm : Text) → Shows norm o → P norm)
      → All (λ (r : TextRecord). P r.norm) s.texts
      → All (λ (r : TextRecord). P r.norm) (observe o s).texts
  unfolding observe_text observe_image
  observe-All P (text page norm diagonal alpha size) s shown h =
      elim (Bool-cases (is_candidate floats norm diagonal alpha)) [
        | inl good ↦
            let (enough, few, trait) = candidate norm diagonal alpha good in
            rw good (
              note_text-All P page norm
                (is_strong floats diagonal (is_transparent floats alpha) size) s.texts
                (shown norm (refl, enough, few, trait)) h)
        | inr plain ↦ rw plain h
      ]
  observe-All P (image page digest ctm alpha has_smask page_box) s shown h = h

  observe_all-All {κ} :
      (P : Text → Type κ) (os : List Observation) (s : Sink)
      → ((norm : Text) → Observed norm os → P norm)
      → All (λ (r : TextRecord). P r.norm) s.texts
      → All (λ (r : TextRecord). P r.norm) (observe_all os s).texts
  observe_all-All P [] s shown h = h
  observe_all-All P (o ∷ os) s shown h =
      observe_all-All P os (observe o s) (λ norm later. shown norm (inr later))
        (observe-All P o s (λ norm now. shown norm (inl now)) h)

  abbrev pub no_records : Sink
  no_records = record { texts = []; images = [] }

  -- Whatever is observed, it picks at most eight texts and eight images, and a text only
  -- if it has 2 to 80 characters and was shown diagonally or transparently somewhere: plain text is
  -- never taken for a watermark, however often it is repeated. The order of a set only rearranges it.
  pub decide-AreObserved :
      (order : SetOrder) (total : ℕ) (os : List Observation)
      → Rearranges order
      → let (needles, digests) = decide order total (observe_all os no_records) in
        (length needles ≤ max_auto_targets)
        × (length digests ≤ max_auto_targets)
        × All (λ (norm : Text). Observed norm os) needles
  unfolding decide
  decide-AreObserved order total os perms =
      let s = observe_all os no_records in
      let rank = λ (r : TextRecord). length r.pages in
      let image_rank = λ (r : ImageRecord). length r.pages in
      let images = keep_if (is_image_target total) s.images in
      let texts = keep_if (is_text_target total) s.texts in
      let P = λ (r : TextRecord). Observed r.norm os in
      let all =
        observe_all-All (λ (norm : Text). Observed norm os) os no_records (λ norm h. h) tt in
      (
        rw (length-map (capped rank order.of_texts texts) norm_of)
            (length-capped rank order.of_texts texts),
        rw (length-map (capped image_rank order.of_images images) digest_of)
            (length-capped image_rank order.of_images images),
        All-map P (λ (norm : Text). Observed norm os) norm_of (capped rank order.of_texts texts)
            (λ r h. h)
            (All-capped P rank order.of_texts texts (perms.texts_perm texts)
              (All-keep_if P (is_text_target total) s.texts all)),
      )
