-- ===== src/Processing/Trace.antt =====
-- The entry of the run ledger that runtime/processing.py records: _trace_outcome and
-- _record_trace_entry. The text of the rejection's message is left out.
use deterministic_audit_runt.Prelude.{ℕ, String, Option, none, some, List, map}
use deterministic_audit_runt.Prelude.Int.{pos}
use deterministic_audit_runt.Errors.{Result, ok, err, ◌>>=◌, Error, ledger_error, processing_error}
use deterministic_audit_runt.Json.{Json, null, int, str, obj, arr, field, end, item}
use deterministic_audit_runt.EventStore.{LedgerFile, AppendResult}
use deterministic_audit_runt.Rejection.{
  RejectionReason, RejectionStage, parse_non_json, schema_invalid, candidate_missing,
  candidate_empty, policy_rejected, transport_rejected, parse, schema, candidate, policy, transport,
}
use deterministic_audit_runt.Tasks.Types.{option_json}
use deterministic_audit_runt.RunLedger.{
  WorkerExecutionTraceContext, ExecutionReport, record_worker_execution, text_items,
  context_from_dict,
}
use deterministic_audit_runt.Validators.Issue.{codes_of}
use deterministic_audit_runt.Processing.Table.{TraceRejection, trace_rejection}
use deterministic_audit_runt.Processing.Types.{
  CandidateEventOutcome, EventVerdict, accepted, rejected,
}

-- The values of the enums.
abbrev pub reason_value : RejectionReason → String
reason_value parse_non_json = "parse_non_json"
reason_value schema_invalid = "schema_invalid"
reason_value candidate_missing = "candidate_missing"
reason_value candidate_empty = "candidate_empty"
reason_value policy_rejected = "policy_rejected"
reason_value transport_rejected = "transport_rejected"

abbrev pub stage_value : RejectionStage → String
stage_value parse = "parse"
stage_value schema = "schema"
stage_value candidate = "candidate"
stage_value policy = "policy"
stage_value transport = "transport"

unfoldable pub rejection_dict : Option TraceRejection → Json
unfolding text_items
rejection_dict none = null
rejection_dict (some t) = obj (
    field "rejection_code" (str (reason_value t.rejection_code)) (
      field "rejection_layer" (str (stage_value t.rejection_layer)) (
        field "validator" (str t.validator) (
          field "validator_code" (str t.validator_code)
            (field "all_issue_codes" (arr (text_items t.all_issue_codes)) end)))))

abbrev pub verdict_text : EventVerdict → String
verdict_text accepted = "accepted"
verdict_text rejected = "rejected"

abbrev pub line_number_json : Option AppendResult → Json
line_number_json none = null
line_number_json (some r) = int (pos r.line_number)

abbrev pub path_json : String → Option AppendResult → Json
path_json path none = null
path_json path (some r) = str path

abbrev pub rejection_json : CandidateEventOutcome → Json
rejection_json o = elim o.outcome [
  | accepted ↦ null
  | rejected ↦ rejection_dict (trace_rejection o.issues)
]

-- `_trace_outcome`, with the path of the event ledger.
unfoldable pub trace_outcome : String → CandidateEventOutcome → Json
unfolding rejection_dict trace_rejection text_items
trace_outcome path o = obj (
    field "event_id" (option_json o.event_id) (
      field "event_type" (option_json o.event_type) (
        field "entity_type" (option_json o.entity_type) (
          field "entity_id" (option_json o.entity_id) (
            field "outcome" (str (verdict_text o.outcome)) (
              field "rejection" (rejection_json o) (
                field "issue_codes" (arr (text_items (codes_of o.issues))) (
                  field "ledger_line_number" (line_number_json o.append_result)
                    (field "ledger_path" (path_json path o.append_result) end)))))))))

-- A RunLedgerError is raised again as a CandidateEventProcessingError.
abbrev pub trace_error : Error → Error
trace_error ledger_error = processing_error
trace_error e = e

abbrev pub report_of : ℕ → ℕ → ℕ → ExecutionReport
report_of total accepted_count rejected_count = record {
  total_candidate_events = pos total;
  accepted_events = pos accepted_count;
  rejected_events = pos rejected_count;
  execution_status = "succeeded";
  failure_stage = none;
  error_message = none;
}

unfoldable pub traced : Result (Json × LedgerFile) → Result (Json × LedgerFile)
unfolding item
traced (err e) = err (trace_error e)
traced (ok (entry, file)) = do id ← item "entry_id" entry; ok (id, file)

-- `_record_trace_entry`: the entry id, and the file of the run ledger.
unfoldable pub record_trace_entry :
    (String → String → String)
    → String
    → WorkerExecutionTraceContext
    → List CandidateEventOutcome
    → ℕ
    → ℕ
    → ℕ
    → LedgerFile
    → Result (Json × LedgerFile)
unfolding record_worker_execution trace_outcome traced
record_trace_entry detect path c outcomes total accepted_count rejected_count runs = traced (
    record_worker_execution detect c (report_of total accepted_count rejected_count)
      (map (trace_outcome path) outcomes) runs)

-- A trace context as process_candidate_events takes it.
pub data TraceArgument : Type 0 where
  no_context : TraceArgument
  context : WorkerExecutionTraceContext → TraceArgument
  payload : Json → TraceArgument

-- `_coerce_trace_context`: a value that is no dict is refused; the errors of from_dict pass.
unfoldable pub coerce_trace_context : TraceArgument → Result (Option WorkerExecutionTraceContext)
unfolding context_from_dict
coerce_trace_context no_context = ok none
coerce_trace_context (context c) = ok (some c)
coerce_trace_context (payload (obj fs)) = do c ← context_from_dict (obj fs); ok (some c)
coerce_trace_context (payload null) = ok none
coerce_trace_context (payload v) = err processing_error
