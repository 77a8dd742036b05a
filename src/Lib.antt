-- ===== src/Lib.antt =====
-- The run orchestration lab: static timing analysis jobs, their execution and their evidence.
--
-- A client submits a JobSpec, over HTTP, under a job identifier. The service stores a Run for it, under a
-- budget, and executes it in numbered Attempts. A worker holds an Attempt by a lease with a token
-- that it renews; a host holds its Attempts by a session. An Attempt whose lease has run out is
-- recovered by another process, under a claim of its own. Attempt and Run end together, by a
-- completion or by a recovery. A Supervisor takes execution requests of its host from a queue and
-- records how the process ended. Timing findings of two revisions are compared.
--
-- Which file models what (paths of the repository):
-- - Models: src/eda_lab/models.py, and the fixed words of the columns.
-- - Store/Schema: the tables of src/eda_lab/store.py as lists of rows, and ExecutionOwner of
--   src/eda_lab/host_agent.py.
-- - Store/Runs, Store/Attempts, Store/Hosts, Store/Requests, Store/Finalize, Store/Revisions: the
--   methods of `Store`, one function each under the method's name. A method takes the database and
--   its readings of the clock before its own arguments; an UPDATE with a rowcount gives the new
--   database and whether it hit one row; a method that raises gives a `Result`.
-- - Store/History: a history, a list of calls of the fenced methods.
-- - Store/Pages: `list_runs` of `Store`.
-- - Service/Validation, Service/Submit, Service/Execute: `_trust_status`, `_validation_fields`,
--   `submit` and `_execute` of src/eda_lab/service.py.
-- - Service/Recover: `recover_stale_runs` of src/eda_lab/service.py; Service/Control: the checks of
--   its construction, `set_execution_owner`, `cancel`, `_heartbeat_loop` and the record of a child.
-- - Postgres/Finalize, Postgres/Dispatch: the methods of src/eda_lab/postgres_store.py that end an
--   Attempt and its Run, and those that the SQLite store does not have.
-- - Postgres/Statements: its methods on Attempts and sessions that are one statement each.
-- - HostAgent: `HostAgent` of src/eda_lab/host_agent.py.
-- - Supervisor: `run_once` of src/eda_lab/execution_supervisor.py.
-- - Parser: src/eda_lab/parser.py, in Numbers, Provenance, Synthetic, OpenSta and Report.
-- - Runner: src/eda_lab/runner.py, in Synthetic and OpenSta (find_sources, Run).
-- - Adapters: src/eda_lab/adapters.py in Fixture and Real, src/eda_lab/clients.py in Clients and
--   Replay.
-- - Worker: `drain` of src/eda_lab/worker.py. Client: src/eda_lab/client.py.
-- - Api: src/eda_lab/api.py, in Paths, Request, Post, Lists and Get.
-- - Prelude: Boolean tests with SQL's NULL, and UPDATE, SELECT, COUNT and ORDER BY over a list of
--   rows, with their lemmas; Prelude/Text has the methods of Python's `str` on characters.
-- - The other files of these parts hold theorems about these; Examples holds concrete runs.
--
-- Each method of the store is one transaction under a lock, so it is one function on the database.
-- What other processes commit between two calls is a parameter (`others` of `submit`, `during` of
-- a Script or a Watch, `meanwhile` of an Observation or a Watch). Times are natural numbers; a time
-- to live is added to the clock and compared as the queries do. The loop of `execute` is recursion
-- on the Attempts that are left, which is the range that the source iterates over. The hash of a
-- JobSpec and the outcome of an adapter are parameters.
--
-- A report goes from the runner's adapter to the parser and from there to the trust of its Run. The
-- synthetic report is read character by character. What the patterns of an OpenSTA report match is
-- a parameter, a `Scan`, and so is the floating-point arithmetic by which its numbers are compared:
-- both are fields of `Library`. A float that is stored or given out stands as the decimal that its
-- text spells, the slack of a synthetic report in ps as that decimal with three more places; digits
-- are ASCII digits.
-- The child process of the OpenSTA adapter, its files and what other threads do to the adapter are
-- a `World`; the clients of the real adapters are operations on a state of their own that may
-- raise. The loop of a Worker is recursion on fuel: a round waits or claims, so two rounds for each
-- QUEUED Run, one for each running job and one more are enough. The loop of the retrying client is
-- recursion on the requests that are left.
--
-- Not modelled: threads, locks, HTTP, Redis and the SQL engines themselves; metric rows, schema
-- migrations; the rest of the PostgreSQL store, the polling loops `serve`, the command
-- lines, the tools and the benchmarks, which measure a running system.
pub mod Prelude
pub mod Models
pub mod Store
pub mod Service
pub mod Postgres
pub mod Supervisor
pub mod HostAgent
pub mod Parser
pub mod Runner
pub mod Adapters
pub mod Worker
pub mod Client
pub mod Api
pub mod Examples
