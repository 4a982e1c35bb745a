-- ===== src/Jobs/Streams.antt =====
-- The progress streams of a job (app/api/v1/endpoints/jobs.py). What the database and Redis answer
-- at each step is a parameter, and so is time; the client is taken to stay connected.
pub mod Ends
mod Examples
use tools_backend.Base.{
  ℕ, zero, suc, ◌-◌, ◌/◌, min, max, ap, Bool, true, false, not, Option, none, some, List, [], ◌∷◌,
  if◌then◌else◌, take, ok, err,
}
use tools_backend.Constants.{JobStatus, ErrorCode, is_terminal}

-- `_job_snapshot`, and the payload of a pushed event.
pub record Snapshot : Type 0 where
  pub status : JobStatus
  pub progress : ℕ
  pub error_code : Option ErrorCode

-- What is sent to the client.
pub data Sent : Type 0 where
  job_not_found : Sent
  sent : Snapshot → Sent

-- What `pubsub.get_message` gives: an event, nothing within its timeout, or an exception.
pub data Message : Type 0 where
  pushed : Snapshot → Message
  silence broken : Message

abbrev pub max_events : ℕ
max_events = 600

-- One polled snapshot; `rest` is what follows if the stream goes on.
abbrev pub polled : Option Snapshot → List Sent → List Sent
polled none rest = job_not_found ∷ []
polled (some s) rest = if is_terminal s.status then sent s ∷ [] else sent s ∷ rest

-- The loop of `events`.
pub poll_events : ℕ → (ℕ → Option Snapshot) → ℕ → List Sent
poll_events zero snapshot i = []
poll_events (suc n) snapshot i = polled (snapshot i) (poll_events n snapshot (suc i))

-- `stream_job_events`
unfoldable pub stream_job_events : (ℕ → Option Snapshot) → List Sent
unfolding poll_events
stream_job_events snapshot = poll_events max_events snapshot 0

-- One step of the WebSocket's loop. `rest` is what follows, given whether Redis is still there.
abbrev pub forwarded : Option Snapshot → Bool → (Bool → List Sent) → Message → List Sent
forwarded snapshot false rest message = polled snapshot (rest false)
forwarded snapshot true rest (pushed s) =
    if is_terminal s.status then sent s ∷ [] else sent s ∷ rest true
forwarded snapshot true rest silence = polled snapshot (rest true)
forwarded snapshot true rest broken = polled snapshot (rest false)

pub forward_events : ℕ → (ℕ → Option Snapshot) → (ℕ → Message) → ℕ → Bool → List Sent
forward_events zero snapshot message i subscribed = []
forward_events (suc n) snapshot message i subscribed =
    forwarded (snapshot i) subscribed (forward_events n snapshot message (suc i)) (message i)

-- `job_progress_websocket`: the first snapshot, then the loop.
unfoldable pub job_progress_websocket :
    Option Snapshot → (ℕ → Option Snapshot) → (ℕ → Message) → Bool → List Sent
unfolding forward_events
job_progress_websocket first snapshot message subscribed =
    polled first (forward_events max_events snapshot message 0 subscribed)
