-- ===== src/Jobs/Inputs/Examples.antt =====
-- Three inputs whose futures complete in the order 2, 0, 1.
use tools_backend.Base.{ℕ, zero, suc, ◌*◌, ◌<◌, ◌≡◌, refl, true, List, [], ◌∷◌, arith, Result, ok}
use tools_backend.Base.Integers.{ℤ, pos}
use tools_backend.Jobs.Inputs.{process_each_input, process_each_input_parallel}
use tools_backend.Jobs.Inputs.Parallel.{has, IsCompletion, process_each_input_parallel-sequential}

abbrev thirds : ℕ → ℤ
thirds n = pos (n * 30)

-- Every input has itself and its index as outputs.
abbrev doubled : ℕ → ℕ → Result ℕ (List ℕ)
doubled item index = ok (item ∷ index ∷ [])

each_once : (j : ℕ) → j < 3 → has j (2 ∷ 0 ∷ 1 ∷ []) ≡ true
each_once zero lt = refl
each_once (suc zero) lt = refl
each_once (suc (suc zero)) lt = refl
each_once (suc (suc (suc j))) lt = absurd (omega arith)

completion : IsCompletion 3 (2 ∷ 0 ∷ 1 ∷ [])
completion = record {
  as_many = refl;
  inside = (omega arith, (omega arith, (omega arith, tt)));
  each = each_once;
}

process_each_input_parallel-sequential_example :
    process_each_input_parallel thirds doubled 4 (2 ∷ 0 ∷ 1 ∷ []) (7 ∷ 8 ∷ 9 ∷ [])
    ≡ process_each_input thirds doubled (7 ∷ 8 ∷ 9 ∷ [])
unfolding process_each_input
process_each_input_parallel-sequential_example =
    process_each_input_parallel-sequential thirds doubled 4 (2 ∷ 0 ∷ 1 ∷ []) (7 ∷ 8 ∷ 9 ∷ [])
      (7 ∷ 0 ∷ 8 ∷ 1 ∷ 9 ∷ 2 ∷ []) completion refl
