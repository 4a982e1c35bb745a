-- ===== src/Jobs/Streams/Examples.antt =====
-- Streams of a job that completes at the third poll.
use tools_backend.Base.{ℕ, zero, suc, ◌≤◌, ◌<◌, ◌≡◌, refl, Option, none, some, arith}
use tools_backend.Constants.{JobStatus}
use tools_backend.Jobs.Streams.{Snapshot, stream_job_events}
use tools_backend.Jobs.Streams.Ends.{IsEnding, IsLive, messages, stream_job_events-SendsUntil}

abbrev at : JobStatus → Snapshot
at status = record { status = status; progress = 50; error_code = none }

abbrev answers : ℕ → Option Snapshot
answers zero = some (at JobStatus.queued)
answers (suc zero) = some (at JobStatus.processing)
answers (suc (suc _)) = some (at JobStatus.completed)

stream_job_events-SendsUntil_example :
    (j : ℕ) × (j ≤ 2)
    × IsEnding (answers j)
    × ((d : ℕ) → d < j → IsLive (answers d))
    × (stream_job_events answers ≡ messages answers 0 j)
stream_job_events-SendsUntil_example = stream_job_events-SendsUntil answers 2 (ground arith) refl
