-- ===== src/Lib.antt =====
-- A verification library for the avtomatika worker SDK (src/avtomatika_worker/).
--
-- A worker registers Python callables as skills, offers them to one or more orchestrators over
-- rxon transports, polls for tasks, runs them, and reports results and heartbeats. Everything
-- happens on one asyncio event loop, so the code between two awaits is one step.
--
-- The parts, each with its state and operations under the names of the source:
--   Worker     worker.py: skills, loads and hot set (`_register_skill_handler`,
--              `add_to_hot_skills`, `_get_current_state`)
--   Load       worker.py: the load that a received task takes (`_poll_for_tasks_with_status`) and
--              that the finally block of `_process_task` gives back; a step relation for one
--              polling loop among any number of running tasks
--   Scheduler  worker.py: `_get_next_client`, the weighted round robin
--   Backoff    worker.py: `_calculate_backoff`, `_parse_retry_after`
--   Poll       worker.py: one poll of one orchestrator, with the backoff of each
--   Polling    worker.py: an iteration of `_start_polling` in its three modes
--   Results    worker.py: the attempts of `_result_queue_worker` for one result
--   Telemetry  worker.py: `_get_resources_usage`, `_is_telemetry_changed_significantly`
--   Heartbeat  worker.py: `_create_heartbeat_payload`, `_send_single_heartbeat`,
--              `_delayed_heartbeat`
--   Session    worker.py: `_register_client_with_retry`, and the heartbeat loop of
--              `_manage_single_orchestrator`
--   Manager    worker.py: `_manage_single_orchestrator` as a machine of the rounds of both loops;
--              Manager/Protocol is the order of its registrations and heartbeats, and not of
--              the polls, debounced heartbeats and the offline heartbeat of the cleanup
--   Registration  worker.py: `_create_registration_payload`
--   Config     config.py: `WorkerConfig.__init__` and its readers, `_get_orchestrators_config`,
--              `validate`
--   Clients    worker.py: `_init_clients` and the weights of `Worker.__init__`, between Config,
--              Scheduler and Polling
--   Skills     worker.py: the decorators `Worker.skill` and `SkillBlueprint.skill`,
--              `_create_dynamic_skill_object`, and the schema of a dataclass
--   Startup    worker.py: `load_skills`, `_validate_skill_types`, and `main` up to the steps of its
--              cleanup
--   Outgoing   worker.py: `OrchestratorClient.call_skill`, `Worker.emit_event`
--   CommandLine  __main__.py: `import_string`, `run_worker`, `main`, and the handler that restarts
--              the worker when a file changes
--   Observability  observability.py: the counters, the spans and their shutdown
--   Blob       s3.py: `S3BlobProvider`, which fills the calls that Offload makes of a store
--   Offload    s3.py: `S3Manager.process_params` and `process_result`; Offload/Leads has pre- and
--              postconditions for code that changes the world and may raise
--   TaskFiles  task_files.py: `TaskFiles`, over a disk whose laws are a record
--   Task       worker.py: `_process_task`, in Gate (signature and policy), Call
--              (`_prepare_task_params`, the signature's arguments, the middlewares), Run (from
--              the parameters to the handler's result, `_prepare_dependencies`), Event
--              (`send_event_wrapper`), Outcome (the result objects and the except clauses) and
--              Process (the whole, with the release of the load)
--   Shutdown   worker.py: the cleanup, and where a result goes while the queue's worker stops;
--              s3.py: `wait_all_done`
--   Commands   worker.py: the effect of a WebSocket command, and a round of the token rotation
--   Logging    logging.py: the context of the log records
--   Json       the values that tasks and results carry
--   Base       the libraries' names, Python's == and in, dicts in insertion order, integers
--   Tests      runs at concrete inputs
--
-- How they meet: Poll calls `get_current_state` of Worker and `accept_task` of Load and takes its
-- delays from Backoff; Polling takes a poll and a scheduler as a record of operations; Heartbeat
-- reads the state and the tasks of Worker, and so does Registration, which leaves the synced hash
-- that Heartbeat compares with; Manager takes its rounds from Session; Skills ends in
-- `register_skill_handler` of Worker; Clients takes the sorted list of Config to Scheduler and
-- Polling; TaskFiles uploads a folder through Offload; Task ends in `release_task` of Load, and
-- its results go on in Shutdown; Startup registers through Worker, makes the transports of Clients
-- and ends in the cleanup of Shutdown.
--
-- Conventions. Times and delays are whole milliseconds, and clocks never run backwards. A
-- transport, a callable and an asyncio task are named by numbers, their identities. A weight of an
-- orchestrator is a natural number. Loads are integers, since the code subtracts from them without
-- a test. Floats of the telemetry are an abstract type with the comparisons that the code makes. A
-- text that is read as a number gives whole milliseconds; NaN and infinity are not modelled. An
-- operation with an await takes what is known before and after it as two arguments (`now` and
-- `later`, `before` and `after`). rxon, obstore and the file system behind S3, Python's path
-- functions, pydantic, dataclasses, the user's handlers and the digest of the catalog are
-- parameters, and so are the parsers of JSON and numbers. Of the recursions on a count, that of
-- `deliver` is the source's `range(retries)`, and those of `register_with_retry` and `wait_loop`
-- are fuel for a `while`: any fuel above the number of the attempt that ends the loop is enough,
-- and for the second any above a number of sleeps whose sum, in the floats of Python, is not below
-- the timeout. The floats of `wait_loop` are an abstract type with `<` and the sum with 0.1. What
-- obstore's `get`, `delete` and `collect` give may be awaited or not, by a field of `Obstore`.
-- Python's stable sort is an insertion sort, with the TypeError of keys that cannot be compared.
--
-- Not modelled: what is logged; OpenTelemetry's exporters; the semaphore of the S3 transfers; signals,
-- sockets and the health server; argparse and watchdog; the times, random ids, priorities and costs
-- of results and events.
pub mod Base
pub mod Json
pub mod Worker
pub mod Skills
pub mod Load
pub mod Scheduler
pub mod Backoff
pub mod Results
pub mod Poll
pub mod Polling
pub mod Telemetry
pub mod Heartbeat
pub mod Config
pub mod Registration
pub mod Session
pub mod Manager
pub mod Task
pub mod TaskFiles
pub mod Shutdown
pub mod Clients
pub mod Logging
pub mod Commands
pub mod Offload
pub mod Blob
pub mod Startup
pub mod CommandLine
pub mod Observability
pub mod Outgoing
mod Tests
