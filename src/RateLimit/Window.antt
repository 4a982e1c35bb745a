-- ===== src/RateLimit/Window.antt =====
-- How many requests a window admits (app/dependencies/rate_limit.py).
use tools_backend.Base.{
  ℕ, suc, ◌-◌, ◌≤◌, ◌<◌, ◌≡◌, refl, sym, ap, ◌∙◌, ◌⊎◌, inl, inr, Bool, true, false, ◌&&◌, Option,
  none, some, List, [], ◌∷◌, arith, ltb, ◌==◌, if◌then◌else◌, Bool-cases, Text, text_eq, text_eq→eq,
  not_ltb→le,
}
use tools_backend.RateLimit.{
  Redis, Verdict, unlimited, failed_open, admitted, limited, verdict_of, with_lifetime, judged,
  counted, fixed_window_limit, verdicts,
}

-- What the limiter relies on in Redis, as long as the window lasts: a counter for each key, which
-- `incr` raises by one and returns, and which `expire` and the other keys leave alone.
pub record Counters (redis : Redis) : Type 0 where
  pub value : Text → redis.State → ℕ
  pub value-incr :
      (key : Text) (s s' : redis.State) (n : ℕ)
      → redis.incr key s ≡ some (n, s')
      → (n ≡ suc (value key s)) × (value key s' ≡ n)
  pub value-incr_ne :
      (key other : Text) (s s' : redis.State) (n : ℕ)
      → text_eq other key ≡ false
      → redis.incr other s ≡ some (n, s')
      → value key s' ≡ value key s
  pub value-expire :
      (key other : Text) (seconds : ℕ) (s s' : redis.State)
      → redis.expire other seconds s ≡ some s'
      → value key s' ≡ value key s

abbrev pub is_admitted : Verdict → Bool
is_admitted admitted = true
is_admitted limited = false
is_admitted failed_open = false
is_admitted unlimited = false

-- The requests of a key that were counted and let pass.
abbrev pub admissions : Text → List (Text × Verdict) → ℕ
admissions key [] = 0
admissions key ((k, v) ∷ rest) =
    let more = admissions key rest in if text_eq k key && is_admitted v then suc more else more

and-false : (a : Bool) → (a && false) ≡ false
and-false true = refl
and-false false = refl

module _ (redis : Redis) (counters : Counters redis) where
  value-with_lifetime :
      (key other : Text) (count : ℕ) (s s' : redis.State)
      → with_lifetime redis other count s ≡ some s'
      → counters.value key s' ≡ counters.value key s
  value-with_lifetime key other count s s' h = elim (Bool-cases (count == 1)) [
    | inl first ↦
        counters.value-expire key other 90 s s'
          (ap (λ b. if b then redis.expire other 90 s else some s) (sym first) ∙ h)
    | inr later ↦
        let e : some s ≡ some s' =
          ap (λ b. if b then redis.expire other 90 s else some s) (sym later) ∙ h in
        let same : s ≡ s' = cc in rw same refl
  ]

  -- A verdict on a request: the counter of the key does not sink, and if the request is an admission
  -- of the key, its counter rises, to at most the limit.
  Fair : Text → ℕ → Text → redis.State → Verdict × redis.State → Type 0
  Fair key limit other s (verdict, s') =
      (((text_eq other key && is_admitted verdict) ≡ false)
        × (counters.value key s ≤ counters.value key s'))
      ⊎ (((text_eq other key && is_admitted verdict) ≡ true)
          × (counters.value key s < counters.value key s')
          × (counters.value key s' ≤ limit))

  incr_mono :
      (key other : Text) (s s' : redis.State) (n : ℕ)
      → redis.incr other s ≡ some (n, s')
      → counters.value key s ≤ counters.value key s'
  incr_mono key other s s' n h = elim (Bool-cases (text_eq other key)) [
    | inl same ↦
        let (up, at) =
          counters.value-incr key s s' n
            (ap (λ k. redis.incr k s) (sym (text_eq→eq other key same)) ∙ h) in
        omega arith
    | inr differs ↦ let same = counters.value-incr_ne key other s s' n differs h in omega arith
  ]

  refused-Fair :
      (key : Text) (limit : ℕ) (other : Text) (s : redis.State) (verdict : Verdict)
      (s' : redis.State)
      → is_admitted verdict ≡ false
      → counters.value key s ≤ counters.value key s'
      → Fair key limit other s (verdict, s')
  unfolding Fair
  refused-Fair key limit other s verdict s' refused mono =
      inl (rw refused (and-false (text_eq other key)), mono)

  admitted-Fair :
      (key : Text) (limit : ℕ) (other : Text) (s s1 s2 : redis.State) (n : ℕ)
      → redis.incr other s ≡ some (n, s1)
      → counters.value key s2 ≡ counters.value key s1
      → n ≤ limit
      → Fair key limit other s (admitted, s2)
  unfolding Fair
  admitted-Fair key limit other s s1 s2 n h kept within = elim (Bool-cases (text_eq other key)) [
    | inl same ↦
        let (up, at) =
          counters.value-incr key s s1 n
            (ap (λ k. redis.incr k s) (sym (text_eq→eq other key same)) ∙ h) in
        inr (rw same refl, omega arith, omega arith)
    | inr differs ↦ let mono = incr_mono key other s s1 n h in inl (rw differs refl, omega arith)
  ]

  verdict-Fair :
      (key : Text) (limit : ℕ) (other : Text) (s s1 s2 : redis.State) (n : ℕ)
      → redis.incr other s ≡ some (n, s1)
      → with_lifetime redis other n s1 ≡ some s2
      → Fair key limit other s (verdict_of limit n, s2)
  verdict-Fair key limit other s s1 s2 n h lives =
      let kept = value-with_lifetime key other n s1 s2 lives in
      let mono = incr_mono key other s s1 n h in
      elim (Bool-cases (ltb limit n)) [
        | inl over ↦ rw over (refused-Fair key limit other s limited s2 refl (rw kept mono))
        | inr within ↦
            rw within (admitted-Fair key limit other s s1 s2 n h kept (not_ltb→le limit n within))
      ]

  judged-Fair :
      (key : Text) (limit : ℕ) (other : Text) (s s1 : redis.State) (n : ℕ) (o : Option redis.State)
      → redis.incr other s ≡ some (n, s1)
      → with_lifetime redis other n s1 ≡ o
      → Fair key limit other s (judged redis limit n s1 o)
  judged-Fair key limit other s s1 n none h lives =
      refused-Fair key limit other s failed_open s1 refl (incr_mono key other s s1 n h)
  judged-Fair key limit other s s1 n (some s2) h lives =
      verdict-Fair key limit other s s1 s2 n h lives

  counted-Fair :
      (key : Text) (limit : ℕ) (other : Text) (s : redis.State) (o : Option (ℕ × redis.State))
      → redis.incr other s ≡ o
      → Fair key limit other s (counted redis limit other s o)
  counted-Fair key limit other s none h =
      refused-Fair key limit other s failed_open s refl (omega arith)
  counted-Fair key limit other s (some (n, s1)) h =
      judged-Fair key limit other s s1 n (with_lifetime redis other n s1) h refl

  fixed_window_limit-Fair :
      (key : Text) (limit : ℕ) (other : Text) (s : redis.State)
      → Fair key limit other s (fixed_window_limit redis limit other s)
  unfolding fixed_window_limit
  fixed_window_limit-Fair key limit other s = elim (Bool-cases (limit == 0)) [
    | inl off ↦ rw off (refused-Fair key limit other s unlimited s refl (omega arith))
    | inr on ↦ rw on (counted-Fair key limit other s (redis.incr other s) refl)
  ]

  -- Within a window, whatever requests of other clients come between and whenever Redis fails, at
  -- most as many requests of a client are counted and let pass as the limit leaves room for.
  pub verdicts-admissions :
      (key : Text) (limit : ℕ) (keys : List Text) (s : redis.State)
      → admissions key (verdicts redis limit keys s) ≤ limit - counters.value key s
  unfolding verdicts Fair
  verdicts-admissions key limit [] s = omega arith
  verdicts-admissions key limit (other ∷ keys) s =
      let rest = verdicts-admissions key limit keys (fixed_window_limit redis limit other s).1 in
      elim (fixed_window_limit-Fair key limit other s) [
        | inl (refused, mono) ↦ rw refused (omega arith)
        | inr (taken, rises, within) ↦ rw taken (omega arith)
      ]
