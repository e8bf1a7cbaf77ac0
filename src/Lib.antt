-- ===== src/Lib.antt =====
-- The deterministic audit runtime.
--
-- Workers propose candidate events. runtime/processing.py prepares each one, asks the validator suite
-- of runtime/validators about it, and appends what is valid to the ledger of runtime/event_store.py,
-- one JSON line for each event. runtime/projector.py replays the accepted events into the canonical
-- state, which the validators read in turn. runtime/rejection.py explains why a task ended without an
-- accepted event, and runtime/outcome.py classifies how a task execution ended.
--
-- Errors: the exceptions that the code raises or catches, and the result monad.
-- Json: JSON values and Python's access to them. Json/Canonical: sorted keys and Python's equality.
-- Redaction: the traversal of runtime/secret_redaction.py (redact_value, redact_event). The detector
--   of secrets in one text is the parameter `detect`.
-- EventStore: runtime/event_store.py. A ledger file is the list of its terminated lines and what
--   stands behind the last line break. EventStore/Ledger has the file with its repair
--   (_repair_trailing_partial_write) and its reading (iter_stored_events); EventStore has append_event
--   and the look-ups, one function for each stage. EventStore/Lock is FilesystemLock as one process
--   sees it: the lock file, the table of held locks and the lock objects, with two attempts as in the
--   source. The other files below it hold proofs.
-- Projector: runtime/projector.py (build_state, _apply_event); the state is one dict of entities for
--   each collection. Projector/Replay compares the replay with a description without a state.
-- Outcome: runtime/outcome.py (classify_provider_error, classify_task_outcome).
-- Rejection: runtime/rejection.py (the classifiers, RejectionChain, enforce_rejection_invariant).
-- Validators: runtime/validators, a module for each validator, and Suite for their order.
--   Validators/Transition holds the matrix of states, the permissions of workers and the guards.
-- Processing: runtime/processing.py. Loop has one stage for each `continue` of the loop, Batch what
--   stands around it without the trace, Table the codes of rejections, Trace the entry that is recorded
--   for a batch, and Whole process_candidate_events with its trace_context.
-- Tasks: runtime/tasks.py. Text has _normalize_target_value, its loops on fuel for each character
--   (enough, since a turn shortens the text); Types has TaskTarget and AuditTask, Keys the order of
--   tasks, Queue the operations of TaskQueueStore on the value of the JSON file. Tasks/Planner is
--   TaskPlanner: Refs (the semantic keys), Limits (the budgets), Follow (the tasks that a state asks
--   for) and Plan (the loop that hands them to the queue). Tasks/Router is CandidateRouter: Candidate,
--   Guards, Route and Run in the order of route_candidates_to_verification, and Summary for
--   get_routing_summary. The other files hold lemmas and theorems.
--   Start is what the two classes do when they are made.
-- Policies: runtime/policies.py. The records, Dict for to_dict, Read for the policy of a profile and
--   Store for PolicyStore, a store being its two caches and the policy file its value. RoundTrip and
--   Cached hold the theorems.
-- RunLedger: runtime/run_ledger.py. Digits (isdigit and int by code points, in the tables of Unicode
--   14, and the default limit of Python on the digits of an int), File (read_entries, _append_entry and the
--   numbering), Start (start_run), Context (WorkerExecutionTraceContext and _optional_string), Outcomes
--   (_normalize_event_outcome), Recording (record_worker_execution); and the queries in Traces, Entities,
--   Findings, Candidates, Lineage, Listing and Forensic. The run ledger is a file like that of the event
--   store. The other files hold proofs.
-- Examples: the theorems applied to concrete ledgers, events, rules and executions.
--
-- All functions are total: the loops of the source run over lists and are structural recursion;
-- the two attempts of the lock are a recursion on their number, as in the source. Exceptions are values
-- of Errors.Result, and a function that writes returns the file that it leaves also where it raises
-- (except those of the run ledger and the task queue, whose file is then as it was). Keys of dicts are
-- texts; a Python int is an integer without bound; a float is carried by its repr. Values
-- of different kinds are never equal, so the equality of Python's True and 1, and of 1 and 1.0, is left
-- out.
--
-- Parameters: the errors of the package jsonschema (`error_paths`, `schema_errors`, `state_errors`),
-- the detector of secrets, the canonicalization of candidates (`canonicalize`) and the fingerprints of
-- runtime/canonicalization.py (`fingerprint`, `equivalent`); for the tasks the clock, what
-- datetime.fromisoformat accepts, and SHA-256 (record Host), and what str makes of floats, lists and
-- dicts (record Shown); for the policies what int makes of floats and texts (record Casts). The theorems
-- on traces ask the detector to leave the text "worker_execution" alone, and the one on the duplicate
-- validator and the store asks it to leave the keys of the event alone; no other theorem assumes
-- anything of the parameters.
--
-- Not modelled: other processes between the steps of a lock, the locks around the operations of the
-- store and the processing (EventStore/Lock models the lock by itself), paths and the
-- flushing of files, human-readable messages, the parser of YAML, the adapters, the workers and the
-- command line.
pub mod Policies
pub mod Prelude
pub mod Errors
pub mod Json
pub mod Redaction
pub mod EventStore
pub mod Projector
pub mod Outcome
pub mod Rejection
pub mod Validators
pub mod Processing
pub mod Tasks
pub mod RunLedger
mod Examples
