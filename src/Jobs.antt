-- ===== src/Jobs.antt =====
-- Background jobs: rows, repositories, creation, the worker's runner, the tools' input loops and
-- the progress streams
-- (app/models, app/repositories, app/services/tool_base.py, app/tasks/base.py,
-- app/api/v1/endpoints/jobs.py).
pub mod Rows
pub mod Repository
pub mod Runner
pub mod Creation
pub mod Streams
pub mod Inputs
mod Examples
