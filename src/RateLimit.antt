-- ===== src/RateLimit.antt =====
-- The fixed-window rate limits (app/dependencies/rate_limit.py). Redis is a parameter.
pub mod Window
mod Examples
use tools_backend.Base.{
  ℕ, ◌+◌, ◌-◌, ◌/◌, ap, Option, none, some, List, [], ◌∷◌, ◌++◌, ltb, ◌==◌, if◌then◌else◌, set,
  Text, codes,
}
use tools_backend.Base.Digits.{str}

-- The two commands of Redis that the limiter sends; `none` is an exception of the client.
pub record Redis : Type 1 where
  pub State : Type 0
  pub incr : Text → State → Option (ℕ × State)
  pub expire : Text → ℕ → State → Option State

-- What the dependency does with a request: let it pass unchecked, count it and let it pass, or raise
-- RateLimitedError.
pub data Verdict : Type 0 where
  unlimited failed_open admitted limited : Verdict

-- `f"ratelimit:{bucket}:{client_ip}:{window}"`
unfoldable pub window_key : Text → Text → ℕ → Text
unfolding str
window_key bucket client_ip now =
    codes "ratelimit:" ++ bucket ++ codes ":" ++ client_ip ++ codes ":" ++ str (now / 60)

abbrev pub verdict_of : ℕ → ℕ → Verdict
verdict_of limit count = if ltb limit count then limited else admitted

module _ (redis : Redis) where
  -- The first request of a window sets the lifetime of its key.
  abbrev pub with_lifetime : Text → ℕ → redis.State → Option redis.State
  with_lifetime key count s = if count == 1 then redis.expire key 90 s else some s

  -- A failure of `expire` lets the request pass too.
  abbrev pub judged : ℕ → ℕ → redis.State → Option redis.State → Verdict × redis.State
  judged limit count s none = (failed_open, s)
  judged limit count s (some s') = (verdict_of limit count, s')

  abbrev pub counted : ℕ → Text → redis.State → Option (ℕ × redis.State) → Verdict × redis.State
  counted limit key s none = (failed_open, s)
  counted limit key s (some (count, s')) = judged limit count s' (with_lifetime key count s')

  -- `_fixed_window_limit`; `upload_rate_limit` does the same for its own bucket
  unfoldable pub fixed_window_limit : ℕ → Text → redis.State → Verdict × redis.State
  fixed_window_limit limit key s =
      if limit == 0 then (unlimited, s) else counted limit key s (redis.incr key s)

  -- The verdicts on a sequence of requests, by their keys.
  unfoldable pub verdicts : ℕ → List Text → redis.State → List (Text × Verdict)
  unfolding fixed_window_limit
  verdicts limit [] s = []
  verdicts limit (key ∷ keys) s =
      let (verdict, s') = fixed_window_limit limit key s in (key, verdict) ∷ verdicts limit keys s'
