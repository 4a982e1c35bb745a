-- ===== src/RateLimit/Examples.antt =====
-- A Redis whose counters are a function, with a client that asks three times and another one.
use tools_backend.Base.{
  ℕ, suc, ◌-◌, ◌≤◌, ◌≡◌, refl, sym, ap, ◌∙◌, some, List, [], ◌∷◌, if◌then◌else◌, Text, codes,
  text_eq, text_eq_refl,
}
use tools_backend.RateLimit.{Redis, verdicts}
use tools_backend.RateLimit.Window.{Counters, admissions, verdicts-admissions}

abbrev raised : Text → (Text → ℕ) → Text → ℕ
raised key s other = if text_eq key other then suc (s key) else s other

abbrev redis : Redis
redis = record {
  State = Text → ℕ;
  incr = λ key s. some (suc (s key), raised key s);
  expire = λ key seconds s. some s;
}

after_incr :
    (key : Text) (s s' : Text → ℕ) (n : ℕ)
    → redis.incr key s ≡ some (n, s')
    → (n ≡ suc (s key)) × (s' ≡ raised key s)
after_incr key s s' n h = (cc, cc)

counters : Counters redis
counters = record {
  value = λ key s. s key;
  value-incr = λ key s s' n h.
      let (up, e) = after_incr key s s' n h in
      (up, ap (λ f. f key) e ∙ rw (text_eq_refl key) (sym up));
  value-incr_ne = λ key other s s' n differs h.
      let (_, e) = after_incr other s s' n h in ap (λ f. f key) e ∙ rw differs refl;
  value-expire = λ key other seconds s s' h. let e : s ≡ s' = cc in ap (λ f. f key) (sym e);
}

abbrev requests : List Text
requests = codes "a" ∷ codes "b" ∷ codes "a" ∷ codes "a" ∷ []

verdicts-admissions_example :
    admissions (codes "a") (verdicts redis 2 requests (λ key. 0))
    ≤ 2 - counters.value (codes "a") (λ key. 0)
verdicts-admissions_example = verdicts-admissions redis counters (codes "a") 2 requests (λ key. 0)
