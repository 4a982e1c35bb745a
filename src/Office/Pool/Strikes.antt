-- ===== src/Office/Pool/Strikes.antt =====
-- The score of crashes against successes (`_record_engine_strike` and `_record_engine_success` of
-- app/utils/office_pool.py).
use tools_backend.Base.{
  ℕ, suc, ◌+◌, ◌-◌, ◌*◌, ◌≤◌, ◌<◌, ◌≡◌, refl, inl, inr, Bool, true, false, Option, none, List, [],
  ◌∷◌, arith, ltb, ltb→lt, Bool-cases,
}
use tools_backend.Office.Pool.{
  Pool, Engine, engine, strike_cost, strike_limit, record_engine_strike, record_engine_success,
}

-- How a conversion ended for the engine: a crash (`true`) or a success (`false`).
unfoldable pub play : List Bool → Engine → Engine
unfolding record_engine_strike record_engine_success
play [] e = e
play (true ∷ outcomes) e = play outcomes (record_engine_strike e)
play (false ∷ outcomes) e = play outcomes (record_engine_success e)

abbrev pub crashes : List Bool → ℕ
crashes [] = 0
crashes (true ∷ outcomes) = suc (crashes outcomes)
crashes (false ∷ outcomes) = crashes outcomes

abbrev pub successes : List Bool → ℕ
successes [] = 0
successes (true ∷ outcomes) = successes outcomes
successes (false ∷ outcomes) = suc (successes outcomes)

abbrev pub is_disabled : Engine → Bool
is_disabled (engine _ disabled _) = disabled

play-disabled :
    (outcomes : List Bool) (pool : Option Pool) (strikes : ℕ)
    → is_disabled (play outcomes (engine pool true strikes)) ≡ true
unfolding play record_engine_strike record_engine_success
play-disabled [] pool strikes = refl
play-disabled (false ∷ outcomes) pool strikes = play-disabled outcomes pool (strikes - 1)
play-disabled (true ∷ outcomes) pool strikes = elim (Bool-cases (ltb (strikes + 2) 6)) [
  | inl small ↦ rw small (play-disabled outcomes pool (strikes + 2))
  | inr large ↦ rw large (play-disabled outcomes pool (strikes + 2))
]

-- An engine whose crashes, at two points each, outweigh its successes, at one, by the limit ends up
-- disabled, in whatever order they come: an engine that crashes on every other conversion is given
-- up. The score starts below the limit.
pub play-is_disabled :
    (outcomes : List Bool) (pool : Option Pool) (strikes : ℕ)
    → strikes < strike_limit
    → successes outcomes + strike_limit ≤ strikes + crashes outcomes * strike_cost
    → is_disabled (play outcomes (engine pool false strikes)) ≡ true
unfolding play record_engine_strike record_engine_success
play-is_disabled [] pool strikes below outweigh = absurd (omega arith)
play-is_disabled (false ∷ outcomes) pool strikes below outweigh =
    play-is_disabled outcomes pool (strikes - 1) (omega arith) (omega arith)
play-is_disabled (true ∷ outcomes) pool strikes below outweigh =
    elim (Bool-cases (ltb (strikes + 2) 6)) [
      | inl small ↦ rw small (
          play-is_disabled outcomes pool (strikes + 2) (ltb→lt (strikes + 2) 6 small) (omega arith))
      | inr large ↦ rw large (play-disabled outcomes none (strikes + 2))
    ]
