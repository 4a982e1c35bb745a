-- ===== src/Lib.antt =====
-- Verification of the tools backend: a FastAPI service that stores uploaded files, runs PDF and
-- office tools over them in background jobs, and serves the results.
--
-- The parts and how they interact. A client uploads files; sanitised names (Filenames) and plan
-- limits (Plans) apply. A tool service checks the inputs of a request, commits a job row in status
-- QUEUED with one INPUT link for each file, and dispatches a task (Jobs/Creation). A worker takes
-- the task, loads the job's files by the positions of the links, runs the tool's processor, imports
-- what it produced, and commits COMPLETED or FAILED (Jobs/Runner). The processors of the page tools
-- are the page operations (Pages). Files are uploaded into and downloaded from a storage tree, and
-- an hourly task marks what has expired (Files); clients follow a job by two streams (Jobs/Streams).
--
-- Accounts register and log in for tokens that later requests carry (Auth); administrators manage
-- accounts, subscriptions, jobs, files, content and settings (Admin). Office documents are converted
-- by LibreOffice, in a pool of servers or one process at a time (Office). Requests are limited by
-- fixed windows in Redis (RateLimit), and a public form stores feedback (Feedback). Among the tools,
-- scans are read in a detected language (Ocr), pages are rendered in parallel chunks (Render), terms
-- are redacted (Redact), and watermarks are found and dropped (Watermark).
--
-- Files and code:
--   Base          lists, texts (lists of code points), decimal numbers, integers, Result
--   Constants     the enumerations of app/constants/__init__.py
--   Exceptions    app/exceptions: one constructor for each class; message texts are left out
--   Sorting       stable sorting by a rank, for rows whose order a table does not fix
--   Plans         app/config/plans.py (limits_for_plan)
--   Filenames     app/utils/filenames.py; Filenames/Paths has what it uses of pathlib
--   Analytics     the client classification of app/services/admin.py
--   Pages         app/utils/pdf_pages.py: Pages/Selection is parse_page_selection, Pages/Operations
--                 the operations over readers and writers, Pages/Pypdf the interface of pypdf
--   Jobs          Jobs/Rows the rows and tables (app/models), Jobs/Repository the repositories
--                 (app/repositories/job.py, file.py), Jobs/Creation create_job and its checks
--                 (app/services/tool_base.py), Jobs/Runner run_tool_job (app/tasks/base.py)
--   Jobs/Inputs   the loops over a job's inputs of app/tasks/base.py, sequential and parallel
--   Jobs/Streams  the event stream and the WebSocket of app/api/v1/endpoints/jobs.py
--   Files         Files/Disk the storage tree (app/services/storage.py), Files/Types the checks of
--                 app/services/file_validation.py, Files/Upload and Files/Download the services of
--                 app/services/upload.py and download.py, Files/Cleanup app/tasks/cleanup.py
--   Json          the values of the JSONB columns
--   Auth          app/services/auth.py, app/core/security.py, app/dependencies/auth.py and admin.py;
--                 Auth/Reached has the sequences of calls that change accounts
--   Admin         app/services/admin.py: Admin/Rows and Admin/Tables the models and what a deletion
--                 does through their foreign keys, Admin/Users and Admin/Subscriptions the accounts
--                 (Admin/Users/Endpoints: app/api/v1/endpoints/admin/users.py), Admin/Jobs,
--                 Admin/Files, Admin/Content, Admin/Support and Admin/Settings the other operations,
--                 Admin/Listing and Admin/Lists the list queries
--   RateLimit     app/dependencies/rate_limit.py
--   Feedback      app/services/feedback.py, the captcha's verification of app/services/captcha.py,
--                 and count_recent of app/repositories/feedback.py
--   Ocr           app/utils/ocr_language.py
--   Render        app/utils/poppler.py
--   Redact        redact_text of app/utils/pdf_document.py, step by step in Redact/Steps;
--                 Redact/Laws has what it uses of PyMuPDF
--   Watermark     app/utils/pdf_security.py: Watermark/Objects and Watermark/Matrices the helpers,
--                 Watermark/Scan and Watermark/Sink the analysis, Watermark/Filter the rewrite of
--                 a content stream, Watermark/Layers the rest, Watermark/Saved what q and Q do
--   Office        Office/Command app/utils/command.py, Office/Launchers and Office/Pool
--                 app/utils/office_pool.py, Office/Convert app/utils/office.py
--
-- State is passed explicitly: the database is a record of tables, a run of the worker is a record of
-- the job object, the tables and the events published. Exceptions are errors of Result. Loops are
-- structural recursion over the lists that they walk; the streams' loops have `_MAX_EVENTS` as fuel,
-- as in the code, and the search for an unused archive name has one more than the names in use, which
-- is enough since the numbered names are all different. Clocks, fresh identifiers, Unicode
-- normalisation, pypdf, storage as the runner sees it, a tool's processor and the broker are
-- parameters; what is used of pypdf's behaviour are the three laws of the record Pypdf. Strings
-- are lists of code points, and changes of case are those of ASCII. bcrypt, PyJWT, the order of a
-- query, and what a process of LibreOffice does are parameters too, as are floating-point numbers,
-- Tesseract, pdftoppm, and PyMuPDF with the laws of the record Laws; the globals of the pool are a
-- state that every call passes on, and the calls are taken one after the other.
--
-- Not modelled: HTTP routing and schemas, configuration, logging, metrics, e-mail, the command
-- lines of the external converters, the geometry of overlays, the forms of a document as a whole,
-- locks, ports and profiles of LibreOffice, the dashboards' aggregates over dates and rates, the
-- issue of captchas, and the database itself, whose operations are taken to succeed, but for
-- unique columns and for the flushes and the commit of an upload, which are parameters. Foreign
-- keys are enforced where an account is deleted.
pub mod Base
pub mod Constants
pub mod Exceptions
pub mod Sorting
pub mod Plans
pub mod Filenames
pub mod Json
pub mod Admin
pub mod Auth
pub mod Analytics
pub mod Jobs
pub mod Files
pub mod Pages
pub mod Office
pub mod RateLimit
pub mod Ocr
pub mod Render
pub mod Redact
pub mod Watermark
pub mod Feedback
