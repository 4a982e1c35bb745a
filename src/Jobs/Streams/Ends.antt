-- ===== src/Jobs/Streams/Ends.antt =====
-- How the progress streams of a job end (app/api/v1/endpoints/jobs.py).
use tools_backend.Base.{
  ℕ, zero, suc, ◌+◌, ◌≤◌, ◌<◌, ◌≡◌, refl, ap, ◌∙◌, ◌⊎◌, inl, inr, Bool, true, false, Option, none,
  some, List, [], ◌∷◌, arith, if◌then◌else◌, Bool-cases,
}
use native.Mathlib.Nat.{zero-add, add-zero, add-suc, suc-add}
use tools_backend.Constants.{is_terminal}
use tools_backend.Jobs.Streams.{
  Snapshot, Sent, job_not_found, sent, Message, pushed, silence, broken, max_events, polled,
  poll_events, stream_job_events, forwarded, forward_events, job_progress_websocket,
}

-- A message behind which nothing may follow: an error, or a terminal status.
abbrev pub is_final : Sent → Bool
is_final job_not_found = true
is_final (sent s) = is_terminal s.status

-- At most `n` messages, and no message behind a final one.
abbrev pub StopsWithin : ℕ → List Sent → Type 0
StopsWithin n [] = Unit
StopsWithin zero (m ∷ ms) = ⊥
StopsWithin (suc n) (m ∷ ms) = (is_final m ≡ true → ms ≡ []) × StopsWithin n ms

-- A snapshot that ends a stream.
abbrev pub IsEnding : Option Snapshot → Type 0
IsEnding none = Unit
IsEnding (some s) = is_terminal s.status ≡ true

nothing : (n : ℕ) → StopsWithin n []
nothing zero = tt
nothing (suc n) = tt

event-StopsWithin :
    (n : ℕ) (s : Snapshot) (rest : List Sent)
    → StopsWithin n rest
    → StopsWithin (suc n) (if is_terminal s.status then sent s ∷ [] else sent s ∷ rest)
event-StopsWithin n s rest h = elim (Bool-cases (is_terminal s.status)) [
  | inl over ↦ rw over ((λ _. refl), nothing n)
  | inr live ↦ rw live ((λ over. cc), h)
]

polled-StopsWithin :
    (n : ℕ) (o : Option Snapshot) (rest : List Sent)
    → StopsWithin n rest
    → StopsWithin (suc n) (polled o rest)
polled-StopsWithin n none rest h = ((λ _. refl), nothing n)
polled-StopsWithin n (some s) rest h = event-StopsWithin n s rest h

forwarded-StopsWithin :
    (n : ℕ) (o : Option Snapshot) (subscribed : Bool) (rest : Bool → List Sent) (m : Message)
    → ((b : Bool) → StopsWithin n (rest b))
    → StopsWithin (suc n) (forwarded o subscribed rest m)
forwarded-StopsWithin n o false rest m h = polled-StopsWithin n o (rest false) (h false)
forwarded-StopsWithin n o true rest (pushed s) h = event-StopsWithin n s (rest true) (h true)
forwarded-StopsWithin n o true rest silence h = polled-StopsWithin n o (rest true) (h true)
forwarded-StopsWithin n o true rest broken h = polled-StopsWithin n o (rest false) (h false)

forward_events-StopsWithin :
    (n : ℕ) (snapshot : ℕ → Option Snapshot) (message : ℕ → Message) (i : ℕ) (subscribed : Bool)
    → StopsWithin n (forward_events n snapshot message i subscribed)
unfolding forward_events
forward_events-StopsWithin zero snapshot message i subscribed = tt
forward_events-StopsWithin (suc n) snapshot message i subscribed =
    forwarded-StopsWithin n (snapshot i) subscribed (forward_events n snapshot message (suc i))
      (message i) (λ b. forward_events-StopsWithin n snapshot message (suc i) b)

-- Whatever Redis and the database answer, the WebSocket sends at most one message more than
-- `_MAX_EVENTS`, and nothing behind an error or a terminal status.
pub job_progress_websocket-StopsWithin :
    (first : Option Snapshot) (snapshot : ℕ → Option Snapshot) (message : ℕ → Message)
    (subscribed : Bool)
    → StopsWithin (suc max_events) (job_progress_websocket first snapshot message subscribed)
unfolding job_progress_websocket
job_progress_websocket-StopsWithin first snapshot message subscribed =
    polled-StopsWithin max_events first (forward_events max_events snapshot message 0 subscribed)
      (forward_events-StopsWithin max_events snapshot message 0 subscribed)

-- What a poll sends.
abbrev pub message_of : Option Snapshot → Sent
message_of none = job_not_found
message_of (some s) = sent s

-- A snapshot behind which the stream goes on.
abbrev pub IsLive : Option Snapshot → Type 0
IsLive none = ⊥
IsLive (some s) = is_terminal s.status ≡ false

-- The messages of the poll `i` and of the `k` polls behind it.
abbrev pub messages : (ℕ → Option Snapshot) → ℕ → ℕ → List Sent
messages snapshot i zero = message_of (snapshot i) ∷ []
messages snapshot i (suc k) = message_of (snapshot i) ∷ messages snapshot (suc i) k

IsEnding-or_IsLive : (o : Option Snapshot) → IsEnding o ⊎ IsLive o
IsEnding-or_IsLive none = inl tt
IsEnding-or_IsLive (some s) = Bool-cases (is_terminal s.status)

not_both : (o : Option Snapshot) → IsEnding o → IsLive o → ⊥
not_both none ending live = live
not_both (some s) ending live = cc

polled-ending :
    (o : Option Snapshot) (rest : List Sent) → IsEnding o → polled o rest ≡ message_of o ∷ []
polled-ending none rest h = refl
polled-ending (some s) rest h = rw h refl

polled-live :
    (o : Option Snapshot) (rest : List Sent) → IsLive o → polled o rest ≡ message_of o ∷ rest
polled-live none rest h = absurd h
polled-live (some s) rest h = rw h refl

-- The first ending poll from the poll `i` on, and what is sent until then.
abbrev pub SendsUntil : (ℕ → Option Snapshot) → ℕ → ℕ → List Sent → Type 0
SendsUntil snapshot i k sends =
    (j : ℕ) × (j ≤ k)
    × IsEnding (snapshot (i + j))
    × ((d : ℕ) → d < j → IsLive (snapshot (i + d)))
    × (sends ≡ messages snapshot i j)

IsLive-before :
    (snapshot : ℕ → Option Snapshot) (i j : ℕ)
    → IsLive (snapshot i)
    → ((d : ℕ) → d < j → IsLive (snapshot (suc i + d)))
    → (d : ℕ) → d < suc j
    → IsLive (snapshot (i + d))
IsLive-before snapshot i j live later zero lt = rw add-zero live
IsLive-before snapshot i j live later (suc d) lt = rw (add-suc, ← suc-add) (later d (omega arith))

poll_events-SendsUntil :
    (n : ℕ) (snapshot : ℕ → Option Snapshot) (i k : ℕ)
    → k < n
    → IsEnding (snapshot (i + k))
    → SendsUntil snapshot i k (poll_events n snapshot i)
unfolding poll_events
poll_events-SendsUntil zero snapshot i k lt ending = absurd (omega arith)
poll_events-SendsUntil (suc n) snapshot i zero lt ending =
    let now : IsEnding (snapshot i) = rw add-zero at ending in
    (
      0,
      omega arith,
      ending,
      λ d below. absurd (omega arith),
      polled-ending (snapshot i) (poll_events n snapshot (suc i)) now,
    )
poll_events-SendsUntil (suc n) snapshot i (suc k) lt ending =
    elim (IsEnding-or_IsLive (snapshot i)) [
      | inl now ↦ (
        0,
        omega arith,
        rw add-zero now,
        λ d below. absurd (omega arith),
        polled-ending (snapshot i) (poll_events n snapshot (suc i)) now,
      )
      | inr live ↦
          let (j, le, last, before, same) =
            poll_events-SendsUntil n snapshot (suc i) k (omega arith)
              (rw (add-suc, ← suc-add) at ending) in
          (
            suc j,
            omega arith,
            rw (add-suc, ← suc-add) last,
            IsLive-before snapshot i j live before,
            polled-live (snapshot i) (poll_events n snapshot (suc i)) live
                ∙ ap (λ ms. message_of (snapshot i) ∷ ms) same,
          )
    ]

-- If the job is missing or terminal at one of the first `_MAX_EVENTS` polls, then the event stream
-- sends one message for each poll up to the first such one, its snapshot or the error of a missing
-- job, in order, and nothing behind it.
pub stream_job_events-SendsUntil :
    (snapshot : ℕ → Option Snapshot) (k : ℕ)
    → k < max_events
    → IsEnding (snapshot k)
    → (j : ℕ) × (j ≤ k)
      × IsEnding (snapshot j)
      × ((d : ℕ) → d < j → IsLive (snapshot d))
      × (stream_job_events snapshot ≡ messages snapshot 0 j)
unfolding stream_job_events
stream_job_events-SendsUntil snapshot k lt ending =
    let (j, le, last, before, same) =
      poll_events-SendsUntil max_events snapshot 0 k lt (rw zero-add ending) in
    (j, le, rw zero-add at last, λ d below. rw zero-add at (before d below), same)
