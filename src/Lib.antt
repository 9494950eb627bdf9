-- ===== src/Lib.antt =====
-- The control plane of the Safactory server: the jobs that clients create and close, the store that
-- keeps them, and the orchestrator that runs each job as two RJobs of a batch platform.
--
-- Parts and files (paths from the repository's root):
-- - src/server/domain: the statuses (Domain) and the error table (Domain.Errors).
-- - src/server/infrastructure/real/control_store.py: the row `ControlJob` and the columns that
--   `update` may write (Store.Row), the tables and their SQL (Store.Table), and the methods of
--   `SQLiteControlStore` (Store.Methods). Each method is one transaction under the store's lock, so
--   it is one function on the store's content that returns or raises; a raise rolls back.
--   Store.Lifecycle says how rows and the store may change; Store.Writes, Store.Extension, Store.Keys
--   and Store.Closing are about what the methods leave.
-- - src/server/infrastructure/real/orchestrator.py: texts and names (Orchestrator.Names), decisions
--   on snapshots and clocks (Orchestrator.Checks), configuration texts (Orchestrator.Config), events
--   and recorded snapshots (Orchestrator.Steps), `_submit_gateway`, `_submit_safactory` and
--   `_launcher_command` (Orchestrator.Submit), `_fail` and `_cleanup` (Orchestrator.Cleanup),
--   `_bind_files`, `_reconcile`, `reconcile_once` and `_run` (Orchestrator.Reconcile).
--   Orchestrator.Naming is about the names of RJobs and Orchestrator.Closes about an undisturbed
--   cleanup. Orchestrator.Rows has the invariant of a row; Orchestrator.Kept, Orchestrator.Cleaning,
--   Orchestrator.Rounds and Orchestrator.Safety carry it through the loop.
-- - src/server/infrastructure/real/runtime_repository.py: `_require_job` and `_query_failed`
--   (Runtime.Repository), `create_job` and `close_job` (Runtime.Jobs), `list_sessions`, `get_steps` and
--   `get_trajectory` (Runtime.Sessions), `_reconcile_result_with_job` (Runtime.Results), the readers of
--   files (Runtime.Artifacts), `get_result` and `get_milestones` (Runtime.Reports). Runtime.Served joins
--   `get_result` to the adapter of the data platform. Runtime.Isolation is about callers that do not own
--   a job, and Runtime.Kept joins the requests to the invariant of the loop. src/server/domain/entities.py: the records that they return
--   (Domain.Entities).
-- - src/server/infrastructure/real/data_platform.py: values and rows (Platform.Values, Platform.Rows),
--   the query (Platform.Queries), `list_session_ids` and `get_result` (Platform.Sessions), `get_steps` and
--   `get_trajectory` (Platform.Steps). The client of the SDK is a parameter, with either of its two
--   surfaces. Platform.Order, Platform.Latest, Platform.Numbering, Platform.Consistency,
--   Platform.Listing and Platform.Escaping are about what these return.
-- - src/server/infrastructure/real/configuration.py: `RealCatalog` and the checks on ranges (Catalog).
-- - src/server/application/service.py: the lists and `create_job` of `JobService` (Service.Creation),
--   `_redact_sensitive_values` (Service.Redaction); Service.Admission is about `create_job`.
-- - src/server/infrastructure/real/rjob.py: RJob states, specifications, snapshots and the bootstrap
--   command of the Gateway (RJob), `HttpRJobClient` (RJob.Http); RJob.Replies is about what it returns.
--   The addresses in the values of an RJob (RJob.Addresses, with RJob.Routable about them) and `get` of
--   `BrainPPRJobClient` on the SDK's replies as JSON values (RJob.Brainpp, with RJob.Reading about it).
-- - src/server/infrastructure/real/file_manager.py: the binding that the store keeps as text (Files), the
--   checks on what is read (Files.Sources), `_render_binding` (Files.Render), `to_json` and `from_json`
--   (Files.Text), `bind` (Files.Publish). Files.Mounts, Files.RoundTrip, Files.Immutable and Files.Bound
--   are about mounts, about the text of a binding and about bindings that stay.
-- - src/server/auth: the API-key document and the authenticator (Auth); Auth.Lookup says whom it lets in,
--   and Auth.Raises when it raises.
-- - src/server/config.py: the settings that are read (Settings).
--
-- How asyncio is modelled (Exec): a computation maps a world (the store, a counter of the steps taken,
-- the calls made) to an outcome and a world. At each await of the store the other tasks run first:
-- `Environment.interference` gives their transactions (a job added, a close requested, an event
-- appended) as a function of the counter, and so do `clock`, `db_fails` (the database refuses a
-- transaction) and the replies of the RJob platform, the Gateway's health check and the file
-- manager. A statement for every `Context` so holds for every interleaving and every reply.
-- Functions of Python and pydantic that depend on tables or parsers (`str.lower`, `json.loads`,
-- `ipaddress.ip_address`, `model_validate_json`, …) are fields of `Library`. Exec.Keeps, Exec.Returns
-- and Exec.Answers have the rules to reason about such computations, and Outcomes has the chains of
-- steps that may raise outside the store.
--
-- A timestamp is stored as its number of milliseconds and a clock reading is a number of
-- microseconds, so `timestamp` divides by 1000 as the text format does. Numbers are natural numbers,
-- exit codes are integers, and a setting of type `float` is the text that `str` gives. SELECT without
-- a unique order is stable in the order of insertion. `_run` has no end; `run_rounds` is any number of
-- its rounds, so no fuel is needed beyond that number.
--
-- Not modelled: log lines; the creation of the schema and the connection to SQLite; `start`, `stop`
-- and the wake-up event of the loop, which decide only when a round begins; `asyncio.CancelledError`;
-- the texts of exceptions; the RecursionError of a parser on a nesting that is too deep, except in the
-- RJob client and in the reading of a binding; objects of the SDK's client that are no JSON values
-- (`datetime` among them), and the OverflowError of `int` for an infinite float; the initialization
-- document; the brainpp SDK's structures that are no JSON, the jobs that are built for it, and the
-- Gateway's health check (in the loop, the replies of the platform and of the file manager are
-- arbitrary, so what holds there holds for any client); the HTTP layer; the scripts under src/env,
-- which run in the containers of the episodes.
pub mod Base
pub mod Domain
pub mod Json
pub mod Outcomes
pub mod Platform
pub mod Text
pub mod Store
pub mod RJob
pub mod Files
pub mod Settings
pub mod Exec
pub mod Orchestrator
pub mod Catalog
pub mod Runtime
pub mod Auth
pub mod Service
mod Examples
