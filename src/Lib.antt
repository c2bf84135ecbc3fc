-- ===== src/Lib.antt =====
-- Verification of Growth Clockwork: the local task broker of pipeline/task_broker.py with its schema
-- contracts/task-broker-v1.sql, the ingress of events in pipeline/broker_ingress.py, the operating
-- contract of pipeline/operating_contract.py, the route projection of pipeline/agent_registry.py, the
-- schema validator of pipeline/validate_json_suites.py and the Root Writer, pipeline/root_writer.py.
--
-- Parts. Growth Clockwork turns trusted events into tasks of a local SQLite broker. A worker claims a
-- queued task under a lease, and ends it by failing, by handing it to a child task, by a completion
-- receipt or by assets that wait for a human review; the review is projected into the broker, and an
-- overdue lease is expired by maintenance. Every change writes one audit event in the same
-- transaction. The ingress keeps an event's input as a file that the Root Writer makes: a request that a
-- profile allows is checked, its files are published below the project's state directory, and a
-- receipt names them; a request whose receipt is there is answered with it. The
-- validator checks JSON files against a subset of JSON Schema.
--
-- Files.
-- - Prelude: shared names, Boolean tests, lists over native numbers, integers, the texts and their
--   tests (blank, lower-case hexadecimal digest).
-- - Json, Json/Canonical: JSON values; `canonical` (`json.dumps` with sorted keys) as a printer of
--   ASCII codes, and UTF-8 encoding.
-- - Broker/Tables: the tables as lists of rows, each statement of the broker as a function that
--   answers `none` where a constraint of the schema fails.
-- - Broker/Session: a method as a state and error monad (`Action`), with `transaction` for the
--   context manager. Broker/Permissions, Admission, Lease, Handoff, Results, Review: the methods
--   (`permissions`; `event`, `get`, `admit`; `claim`, `fail`, `expire_leases`; `delegate`;
--   `accept_verified_result`, `accept_verified_completion`; `accept_verified_decision`), each cut
--   into the parts that the method runs one after the other.
-- - Broker/Status: `read_status`.
-- - Broker/Requests: the methods as one type of requests, `run` for one and `serve` for a session.
-- - Broker/Lifecycle: the abstract specification, a transition system on the tables.
-- - Broker/Rows, Atomic, Refinement, History, Sessions: the proofs. Broker/Examples: a run of the
--   broker, and each theorem at a concrete input.
-- - Broker/Replay, Claims: a repeated admission, and what a claim does.
-- - Ingress: `_text`, `_identity` and `admit_event` of pipeline/broker_ingress.py, which read one event
--   and pass it to `admit`; Ingress/Persist: `persist_and_admit_event`, over an interface for the two
--   calls of pipeline/root_writer.py; Ingress/Readers, Events, Reads, Prepared, Receipts: their
--   proofs.
-- - Operating: `validate_operating_contract` of pipeline/operating_contract.py; Operating/Usage, Limits:
--   `aggregate_usage`, `enforce_resource_limits` and `enforce_run_limits`; Operating/Checks, Enforcement,
--   Totals: their proofs. Examples: concrete inputs.
-- - Routes, Routes/Decisions: `_check_acyclic`, `route_with_active_nodes` and
--   `route_for_activation_decisions` of pipeline/agent_registry.py; Routes/Acyclic, Fuel, Activation:
--   their proofs; Routes/Plans: what the entries of a plan say; Routes/Entries, Decided: the proofs about
--   the plan.
-- - Schema: the vocabulary of the schema subset of pipeline/validate_json_suites.py, its exceptions and
--   its paths; Schema/Equal: `_json_equal` and `_instance_type_matches`; Schema/Check:
--   `_check_schema_keywords`; Schema/Validate and its children: `SubsetValidator`; Schema/Conforms: what
--   a schema means; Schema/Depth, Settles, Terminates, Decides: the proofs.
-- - Writer: pipeline/root_writer.py. Writer/Paths: `_validate_relative_path`, `_under_prefix` and the
--   other readers of single values; Writer/Profile: `load_project_profile`; Writer/Requests, Writes:
--   `_validate_request_header`, `_validate_preconditions`, `validate_request`; Writer/Files: the state
--   directory as a list of files, directories and links, with `_open_directory_chain`,
--   `_read_relative_bytes`, `_publish_exclusive`, `_cleanup_transaction_stages` and
--   `_assert_no_symlink_path`; Writer/Receipts: `_idempotent_receipt`; Writer/Apply:
--   `apply_request_value`. Writer/Grows, Kept, Targets, Readied, Limits, Segments, Slashes, RoundTrip, Reach,
--   Published, Rechecked, Finished, Transactions, Replay: the proofs.
--
-- Bounds and fuel. Seconds, versions and attempts are natural numbers, the counters that a caller
-- supplies are integers; one beyond 63 bits, which the binding of SQLite refuses with an OverflowError,
-- is outside the model. The fuel of `decimal` is one round more than the number, that of `visit` one
-- more than the route has nodes, that of the check of a schema and of a validation one more than the schema is deep.
-- `sha256`, the clock and `uuid4` are parameters (`Env`); where a theorem needs that a
-- digest is hexadecimal, it says so.
--
-- Not modelled. Opening the database; the `isinstance` and `type` tests of the broker, which the
-- types of the arguments replace; two processes at once, which BEGIN IMMEDIATE puts one after the
-- other; the process boundaries `main`; JSON numbers that are no integers; a change of the
-- permission file between two calls of one session, which keeps the file of its first state
-- (`State.config`), while `permissions` reads it again on every call; the handler of
-- `validate_operating_contract` for a `SuiteConfigurationError`, since the verdict of the validator
-- is an argument; in the schema validator the suites, their registries and files; in the Root
-- Writer the resolution of the workspace and of the profile's package, the lock, the stage within
-- one publication, failures of the file system and other processes; `re`, `datetime.fromisoformat`,
-- `uuid` and the forms of `json.dumps` that the Root Writer uses are parameters (`Library`,
-- `Host`); the other modules of pipeline/ and the dashboard.
pub mod Broker
pub mod Ingress
pub mod Json
pub mod Operating
pub mod Prelude
pub mod Routes
pub mod Schema
pub mod Writer
