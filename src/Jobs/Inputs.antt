-- ===== src/Jobs/Inputs.antt =====
-- The loops of the tools over a job's inputs (`process_each_input`, `process_each_input_parallel` of
-- app/tasks/base.py). The operation is a parameter, its one or several outputs a list, and so is the
-- progress that the floating-point division gives for a number of finished inputs.
pub mod Parallel
mod Examples
use tools_backend.Base.{
  ℕ, suc, ◌+◌, ◌-◌, ◌/◌, min, max, ap, Option, none, some, List, [], ◌∷◌, ◌++◌, leb, if◌then◌else◌,
  length, get_elem?, set, replicate, Result, ok, err, ◌>>=◌, ◌>>◌,
}
use tools_backend.Base.Integers.{ℤ}

module _ {μ} {Out : Type μ} where
  unfoldable pub flatten : List (Option (List Out)) → List Out
  flatten [] = []
  flatten (none ∷ results) = flatten results
  flatten (some out ∷ results) = out ++ flatten results

module _ {ℓ μ} {E : Type ℓ} {Out : Type μ} where
  -- Behind one operation: its outputs come first, and one report.
  abbrev pub produced :
      ℤ → Result E (List Out) → List ℤ × Result E (List Out) → List ℤ × Result E (List Out)
  produced progress (err e) rest = ([], err e)
  produced progress (ok out) (reports, rest) =
      (progress ∷ reports, rest >>= λ outs. ok (out ++ outs))

  -- One step of the loop over `as_completed`: `next` goes on with the new results.
  abbrev pub arrived :
      (List (Option (List Out)) → List ℤ × Result E (List (Option (List Out))))
      → ℤ
      → List (Option (List Out))
      → ℕ
      → Option (Result E (List Out))
      → List ℤ × Result E (List (Option (List Out)))
  arrived next progress results i none = next results
  arrived next progress results i (some (err e)) = ([], err e)
  arrived next progress results i (some (ok out)) =
      let (reports, rest) = next (set results i (some out)) in (progress ∷ reports, rest)

  -- The loop, for the indices in the order in which the futures complete.
  unfoldable pub gather :
      (ℕ → ℤ)
      → List (Result E (List Out))
      → ℕ
      → List ℕ
      → List (Option (List Out))
      → List ℤ × Result E (List (Option (List Out)))
  gather share ran completed [] results = ([], ok results)
  gather share ran completed (i ∷ order) results =
      arrived (λ rs. gather share ran (suc completed) order rs) (share (suc completed)) results i
        (get_elem? ran i)

  abbrev pub flattened : List ℤ × Result E (List (Option (List Out))) → List ℤ × Result E (List Out)
  flattened (reports, err e) = (reports, err e)
  flattened (reports, ok results) = (reports, ok (flatten results))

module _ {ℓ κ μ} {E : Type ℓ} {Item : Type κ} {Out : Type μ} where
  -- `share` is the progress for a number of finished inputs; `index` inputs are finished.
  unfoldable pub process_from :
      (ℕ → ℤ) → (Item → ℕ → Result E (List Out)) → ℕ → List Item → List ℤ × Result E (List Out)
  process_from share operate index [] = ([], ok [])
  process_from share operate index (item ∷ items) =
      produced (share (suc index)) (operate item index)
        (process_from share operate (suc index) items)

  -- The reports made, and the outputs or the exception.
  unfoldable pub process_each_input :
      (ℕ → ℤ) → (Item → ℕ → Result E (List Out)) → List Item → List ℤ × Result E (List Out)
  unfolding process_from
  process_each_input share operate items = process_from share operate 0 items

  -- What the futures will hold, by index.
  unfoldable pub futures :
      (Item → ℕ → Result E (List Out)) → ℕ → List Item → List (Result E (List Out))
  futures operate index [] = []
  futures operate index (item ∷ items) = operate item index ∷ futures operate (suc index) items

  unfoldable pub process_each_input_parallel :
      (ℕ → ℤ)
      → (Item → ℕ → Result E (List Out))
      → ℕ
      → List ℕ
      → List Item
      → List ℤ × Result E (List Out)
  unfolding process_each_input futures gather flatten
  process_each_input_parallel share operate max_workers order items =
      if leb (min max_workers (length items)) 1
      then process_each_input share operate items
      else flattened
          (gather share (futures operate 0 items) 0 order (replicate (length items) none))
