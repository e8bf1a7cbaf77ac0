-- ===== src/RunLedger/Recording.antt =====
-- record_worker_execution of runtime/run_ledger.py.
use deterministic_audit_runt.Prelude.{
  String, Bool, true, false, not, ◌&&◌, Option, none, some, List, [], ◌==◌, if◌then◌else◌,
}
use deterministic_audit_runt.Prelude.Int.{ℤ, pos, ltb_ℤ}
use deterministic_audit_runt.Errors.{Result, ok, ◌>>=◌}
use deterministic_audit_runt.Json.{Json, int, str, arr, obj, field, end, Fields}
use deterministic_audit_runt.EventStore.{LedgerFile}
use deterministic_audit_runt.Tasks.Text.{no_text, strip}
use deterministic_audit_runt.Tasks.Types.{option_json}
use deterministic_audit_runt.RunLedger.File.{read_entries, next_sequence, entry_id, append_entry}
use deterministic_audit_runt.RunLedger.Start.{ledger_check}
use deterministic_audit_runt.RunLedger.Context.{
  context_fields, WorkerExecutionTraceContext, stripped,
}
use deterministic_audit_runt.RunLedger.Outcomes.{normalize_outcomes, outcomes_named, EventOutcome}

-- The arguments of `record_worker_execution` besides the context and the outcomes.
pub record ExecutionReport : Type 0 where
  pub total_candidate_events : ℤ
  pub accepted_events : ℤ
  pub rejected_events : ℤ
  pub execution_status : String
  pub failure_stage : Option String
  pub error_message : Option String

abbrev pub is_some {ℓ} : {A : Type ℓ} → Option A → Bool
is_some none = false
is_some (some a) = true

abbrev pub stage_given : Option String → Bool
stage_given none = false
stage_given (some s) = not (no_text (strip s))

-- The checks in front of `record_worker_execution`.
unfoldable pub is_valid_execution : WorkerExecutionTraceContext → ExecutionReport → Bool
unfolding strip
is_valid_execution c e =
    not (ltb_ℤ e.total_candidate_events (pos 0))
    && not (ltb_ℤ e.accepted_events (pos 0))
    && not (ltb_ℤ e.rejected_events (pos 0))
    && (if e.execution_status == "succeeded"
        then not (is_some e.failure_stage) && is_some c.input_digest && is_some c.output_digest
        else e.execution_status == "failed" && stage_given e.failure_stage)

abbrev pub stripped_option : Option String → Option String
stripped_option none = none
stripped_option (some s) = stripped s

unfoldable pub execution_fields :
    ℤ → WorkerExecutionTraceContext → ExecutionReport → List EventOutcome → Fields
unfolding entry_id context_fields outcomes_named strip
execution_fields sequence c e outcomes = field "schema_version" (str "1.0.0") (
    field "entry_type" (str "worker_execution") (
      field "entry_id" (str (entry_id sequence)) (
        field "sequence" (int sequence) (
          context_fields c (
            field "execution_status" (str e.execution_status) (
              field "failure_stage" (option_json (stripped_option e.failure_stage)) (
                field "candidate_event_count" (int e.total_candidate_events) (
                  field "accepted_event_count" (int e.accepted_events) (
                    field "rejected_event_count" (int e.rejected_events) (
                      field "accepted_events" (arr (outcomes_named "accepted" outcomes)) (
                        field "rejected_events" (arr (outcomes_named "rejected" outcomes)) (
                          field "error_message" (option_json (stripped_option e.error_message))
                            end))))))))))))

unfoldable pub execution_entry :
    ℤ → WorkerExecutionTraceContext → ExecutionReport → List EventOutcome → Json
unfolding execution_fields
execution_entry sequence c e outcomes = obj (execution_fields sequence c e outcomes)

-- `record_worker_execution`: the entry that it returns, and the file. The checks all raise the same
-- error, in front of the reading.
unfoldable pub record_worker_execution :
    (String → String → String)
    → WorkerExecutionTraceContext
    → ExecutionReport
    → List Json
    → LedgerFile
    → Result (Json × LedgerFile)
unfolding ledger_check is_valid_execution read_entries next_sequence normalize_outcomes
    execution_entry append_entry
record_worker_execution detect c e event_outcomes file = do
  _ ← ledger_check (is_valid_execution c e)
  entries ← read_entries file
  outcomes ← normalize_outcomes event_outcomes
  let entry = execution_entry (next_sequence entries) c e outcomes
  ok (entry, append_entry detect entry file)

-- `record_worker_execution_failure`
unfoldable pub record_worker_execution_failure :
    (String → String → String)
    → WorkerExecutionTraceContext
    → String
    → String
    → LedgerFile
    → Result (Json × LedgerFile)
unfolding record_worker_execution
record_worker_execution_failure detect c failure_stage error_message file =
    record_worker_execution detect c
      (record {
        total_candidate_events = pos 0;
        accepted_events = pos 0;
        rejected_events = pos 0;
        execution_status = "failed";
        failure_stage = some failure_stage;
        error_message = some error_message;
      })
      [] file
