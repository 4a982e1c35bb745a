-- ===== src/Jobs/Inputs/Parallel.antt =====
-- The parallel loop over a job's inputs against the sequential one (app/tasks/base.py).
use tools_backend.Base.{
  ℕ, zero, suc, ◌≤◌, ◌<◌, min, ◌≡◌, refl, sym, ap, ◌∙◌, inl, inr, Bool, true, false, Option, none,
  some, List, [], ◌∷◌, ◌++◌, map, arith, ltb, leb, ◌==◌, if◌then◌else◌, ltb→lt, ==_iff, Bool-cases,
  length, get_elem?, set, replicate, length-set, get_elem?-set_self, get_elem?-set_ne,
  length-replicate, length-map, All, get_elem?-lt, Result, ok, err, >>=-eq-ok, not_ltb→le,
}
use tools_backend.Base.Integers.{ℤ}
use tools_backend.Jobs.Inputs.{
  produced, process_from, process_each_input, futures, gather, flatten, process_each_input_parallel,
}

abbrev pub has : ℕ → List ℕ → Bool
has j [] = false
has j (i ∷ is) = let rest = has j is in if i == j then true else rest

-- The order in which `as_completed` yields the futures of `n` inputs: each of them, once.
pub record IsCompletion (n : ℕ) (order : List ℕ) : Type 0 where
  pub as_many : length order ≡ n
  pub inside : All (λ i. i < n) order
  pub each : (j : ℕ) → j < n → has j order ≡ true

pair_eq {ℓ κ} :
    {A : Type ℓ} {B : Type κ} {a : A} {b : B} {p : A × B} → a ≡ p.0 → b ≡ p.1 → (a, b) ≡ p
pair_eq h k = cc

module _ {ℓ} {A : Type ℓ} where
  ext : (xs ys : List A) → ((j : ℕ) → get_elem? xs j ≡ get_elem? ys j) → xs ≡ ys
  ext [] [] h = refl
  ext [] (y ∷ ys) h = let e = h 0 in cc
  ext (x ∷ xs) [] h = let e = h 0 in cc
  ext (x ∷ xs) (y ∷ ys) h =
      let e : some x ≡ some y = h 0 in
      let same : x ≡ y = cc in let rest : xs ≡ ys = ext xs ys (λ j. h (suc j)) in cc

  past_end : (xs : List A) (j : ℕ) → length xs ≤ j → get_elem? xs j ≡ none
  past_end [] j le = refl
  past_end (x ∷ xs) zero le = absurd (ground arith)
  past_end (x ∷ xs) (suc j) le = past_end xs j (omega arith)

  some_at :
      (xs : List A) (j : ℕ) (x : A)
      → get_elem? xs j ≡ some x
      → get_elem? (map some xs) j ≡ some (some x)
  some_at [] j x h = cc
  some_at (y ∷ ys) zero x h = cc
  some_at (y ∷ ys) (suc j) x h = some_at ys j x h

module _ {ℓ} {A : Type ℓ} where
  found-lt : (xs : List A) (j : ℕ) (x : A) → get_elem? xs j ≡ some x → j < length xs
  found-lt [] j x h = cc
  found-lt (y ∷ ys) zero x h = omega arith
  found-lt (y ∷ ys) (suc j) x h = let rest = found-lt ys j x h in omega arith

  abbrev concat : List (List A) → List A
  concat [] = []
  concat (xs ∷ xss) = xs ++ concat xss

abbrev shares : (ℕ → ℤ) → ℕ → ℕ → List ℤ
shares share completed zero = []
shares share completed (suc n) = share (suc completed) ∷ shares share (suc completed) n

module _ {μ} {Out : Type μ} where
  -- The results when every future in the order has succeeded.
  abbrev fill : List (List Out) → List ℕ → List (Option (List Out)) → List (Option (List Out))
  fill outs [] results = results
  fill outs (i ∷ order) results = fill outs order (set results i (get_elem? outs i))

  length-fill :
      (outs : List (List Out)) (order : List ℕ) (results : List (Option (List Out)))
      → length (fill outs order results) ≡ length results
  length-fill outs [] results = refl
  length-fill outs (i ∷ order) results =
      length-fill outs order (set results i (get_elem? outs i)) ∙ length-set results i _

  get_elem?-fill_kept :
      (outs : List (List Out)) (order : List ℕ) (results : List (Option (List Out))) (j : ℕ)
      → get_elem? results j ≡ some (get_elem? outs j)
      → get_elem? (fill outs order results) j ≡ some (get_elem? outs j)
  get_elem?-fill_kept outs [] results j h = h
  get_elem?-fill_kept outs (i ∷ order) results j h =
      get_elem?-fill_kept outs order (set results i (get_elem? outs i)) j
        (elim (Bool-cases (i == j)) [
          | inl same ↦
              let e : i ≡ j = (==_iff i j).0 same in
              let lt : j < length results = found-lt results j (get_elem? outs j) h in
              rw e (get_elem?-set_self results j (get_elem? outs j) lt)
          | inr other ↦ get_elem?-set_ne results (get_elem? outs i) (λ e. ground arith) ∙ h
        ])

  get_elem?-fill :
      (outs : List (List Out)) (order : List ℕ) (results : List (Option (List Out))) (j : ℕ)
      → j < length results
      → has j order ≡ true
      → get_elem? (fill outs order results) j ≡ some (get_elem? outs j)
  get_elem?-fill outs [] results j lt h = cc
  get_elem?-fill outs (i ∷ order) results j lt h = elim (Bool-cases (i == j)) [
    | inl same ↦
        let e : i ≡ j = (==_iff i j).0 same in
        get_elem?-fill_kept outs order (set results i (get_elem? outs i)) j
          (rw e (get_elem?-set_self results j (get_elem? outs j) lt))
    | inr other ↦
        get_elem?-fill outs order (set results i (get_elem? outs i)) j
          (rw (length-set results i (get_elem? outs i)) lt) (rw other at h)
  ]

  filled :
      (outs : List (List Out)) (order : List ℕ)
      → IsCompletion (length outs) order
      → fill outs order (replicate (length outs) none) ≡ map some outs
  filled outs order c = ext _ _ (λ j. elim (Bool-cases (ltb j (length outs))) [
    | inl within ↦
        let lt = ltb→lt j (length outs) within in
        let (out, found) = get_elem?-lt outs j lt in
        let at : get_elem? (fill outs order (replicate (length outs) none)) j
            ≡ some (get_elem? outs j) =
          get_elem?-fill outs order (replicate (length outs) none) j
            (rw (length-replicate {A = Option (List Out)} (length outs) none) lt) (c.each j lt) in
        at ∙ (ap some found ∙ sym (some_at outs j out found))
    | inr beyond ↦
        past_end (fill outs order (replicate (length outs) none)) j (
          omega (
            arith,
            not_ltb→le j (length outs) beyond,
            length-fill outs order (replicate (length outs) none),
            length-replicate {A = Option (List Out)} (length outs) none,
          ))
        ∙ sym (
            past_end (map some outs) j (
              omega (
                arith,
                not_ltb→le j (length outs) beyond,
                length-map {B = Option (List Out)} outs some,
              )))
  ])

  flatten_somes : (outs : List (List Out)) → flatten (map some outs) ≡ concat outs
  unfolding flatten
  flatten_somes [] = refl
  flatten_somes (o ∷ outs) = rw (flatten_somes outs)

module _ {ℓ μ} {E : Type ℓ} {Out : Type μ} where
  ok_at :
      (outs : List (List Out)) (i : ℕ) (out : List Out)
      → get_elem? outs i ≡ some out
      → get_elem? (map {B = Result E (List Out)} ok outs) i ≡ some (ok out)
  ok_at [] i out h = cc
  ok_at (o ∷ outs) zero out h = cc
  ok_at (o ∷ outs) (suc i) out h = ok_at outs i out h

  gather-fill :
      (share : ℕ → ℤ) (outs : List (List Out)) (completed : ℕ) (order : List ℕ)
      (results : List (Option (List Out)))
      → All (λ i. i < length outs) order
      → gather {E = E} share (map ok outs) completed order results
        ≡ (shares share completed (length order), ok (fill outs order results))
  unfolding gather
  gather-fill share outs completed [] results h = refl
  gather-fill share outs completed (i ∷ order) results (lt, h) =
      let (out, found) = get_elem?-lt outs i lt in
      rw (
        ok_at outs i out found,
        found,
        gather-fill share outs (suc completed) order (set results i (some out)) h,
      )

  produced-ok :
      (progress : ℤ) (one : Result E (List Out)) (rest : List ℤ × Result E (List Out))
      (all : List Out)
      → (produced progress one rest).1 ≡ ok all
      → (out : List Out) × (outs : List Out) × (one ≡ ok out)
        × (rest.1 ≡ ok outs)
        × (all ≡ out ++ outs)
        × ((produced progress one rest).0 ≡ progress ∷ rest.0)
  produced-ok progress (err e) rest all h = cc
  produced-ok progress (ok out) (reports, rest) all h =
      let (outs, done, same) = >>=-eq-ok rest _ h in
      let e : out ++ outs ≡ all = cc in (out, outs, refl, done, sym e, refl)

module _ {ℓ κ μ} {E : Type ℓ} {Item : Type κ} {Out : Type μ} where
  -- A sequential run that succeeds: every future would succeed, and these are the reports.
  process_from-ok :
      (share : ℕ → ℤ) (operate : Item → ℕ → Result E (List Out)) (index : ℕ) (items : List Item)
      (all : List Out)
      → (process_from share operate index items).1 ≡ ok all
      → (outs : List (List Out)) × (futures operate index items ≡ map ok outs)
        × (all ≡ concat outs)
        × ((process_from share operate index items).0 ≡ shares share index (length items))
        × (length outs ≡ length items)
  unfolding process_from futures
  process_from-ok share operate index [] all h =
      let e : [] ≡ all = cc in ([], refl, sym e, refl, refl)
  process_from-ok share operate index (item ∷ items) all h =
      let (out, rest, one, more, same, reports) =
        produced-ok (share (suc index)) (operate item index)
          (process_from share operate (suc index) items) all h in
      let (outs, ran, joined, later, as_many) =
        process_from-ok share operate (suc index) items rest more in
      (out ∷ outs, rw (one, ran), (same ∙ rw joined), (reports ∙ rw later), ap suc as_many)

  -- In whatever order the futures complete, and for any number of workers: when the sequential loop
  -- succeeds, the parallel one gives the same outputs in the same order, and makes the same
  -- progress reports.
  pub process_each_input_parallel-sequential :
      (share : ℕ → ℤ) (operate : Item → ℕ → Result E (List Out)) (max_workers : ℕ) (order : List ℕ)
      (items : List Item) (all : List Out)
      → IsCompletion (length items) order
      → (process_each_input share operate items).1 ≡ ok all
      → process_each_input_parallel share operate max_workers order items
        ≡ process_each_input share operate items
  unfolding process_each_input_parallel process_each_input
  process_each_input_parallel-sequential share operate max_workers order items all c h =
      let (outs, ran, joined, reports, as_many) = process_from-ok share operate 0 items all h in
      elim (Bool-cases (leb (min max_workers (length items)) 1)) [
        | inl few ↦ rw few
        | inr many ↦
            let c' : IsCompletion (length outs) order = rw as_many c in
            let gathered =
              gather-fill {E = E} share outs 0 order (replicate (length outs) none) c'.inside in
            let results = filled outs order c' in
            rw (many, ran, ← as_many, gathered, results, flatten_somes outs, c'.as_many)
              (pair_eq (sym (reports ∙ rw (← as_many))) (sym (h ∙ rw joined)))
      ]
