-- ===== src/RunLedger/Traces.antt =====
-- Finding the trace of an event or an entity: resolve_event_trace and resolve_entity_trace of
-- runtime/run_ledger.py.
use deterministic_audit_runt.Prelude.{
  String, not, Option, none, some, List, [], ◌∷◌, ◌++◌, if◌then◌else◌,
}
use deterministic_audit_runt.Errors.{Result, ok, ◌>>=◌}
use deterministic_audit_runt.Json.{Json, str, arr, obj, nil, field, end, item, get, get_default}
use deterministic_audit_runt.Json.Canonical.{equals}
use deterministic_audit_runt.EventStore.{LedgerFile}
use deterministic_audit_runt.Tasks.Text.{no_text, strip}
use deterministic_audit_runt.RunLedger.File.{read_entries, field_is}
use deterministic_audit_runt.RunLedger.Start.{ledger_check}
use deterministic_audit_runt.RunLedger.Context.{iterate}

-- `_build_trace_record`
unfoldable pub build_trace_record : Json → Json → String → Result Json
unfolding item get get_default
build_trace_record entry event_ref processing_outcome = do
  entry_id ← item "entry_id" entry
  sequence ← item "sequence" entry
  run_id ← item "run_id" entry
  audit_id ← item "audit_id" entry
  task_id ← item "task_id" entry
  slice_id ← item "slice_id" entry
  slice_fingerprint ← get "slice_fingerprint" entry
  worker_role ← item "worker_role" entry
  snapshot_ref ← get "snapshot_ref" entry
  input_digest ← item "input_digest" entry
  output_digest ← item "output_digest" entry
  prompt_digest ← get "prompt_digest" entry
  raw_output_digest ← get "raw_output_digest" entry
  adapter_invocation ← get_default "adapter_invocation" (obj end) entry
  execution_status ← get "execution_status" entry
  failure_stage ← get "failure_stage" entry
  ok (
      obj (
        field "entry_id" entry_id (
          field "sequence" sequence (
            field "run_id" run_id (
              field "audit_id" audit_id (
                field "task_id" task_id (
                  field "slice_id" slice_id (
                    field "slice_fingerprint" slice_fingerprint (
                      field "worker_role" worker_role (
                        field "snapshot_ref" snapshot_ref (
                          field "input_digest" input_digest (
                            field "output_digest" output_digest (
                              field "prompt_digest" prompt_digest (
                                field "raw_output_digest" raw_output_digest (
                                  field "adapter_invocation" adapter_invocation (
                                    field "execution_status" execution_status (
                                      field "failure_stage" failure_stage (
                                        field "processing_outcome" (str processing_outcome)
                                          (field "event" event_ref end)))))))))))))))))))

-- The first outcome of a list that has the id.
unfoldable pub event_in : String → List Json → Result (Option Json)
unfolding get equals
event_in id [] = ok none
event_in id (event_ref ∷ refs) = do
  found ← get "event_id" event_ref
  if equals found (str id) then ok (some event_ref) else event_in id refs

-- `for event_ref in entry.get(name, [])`
unfoldable pub refs_of : String → Json → Result (List Json)
unfolding get_default iterate
refs_of name entry = get_default name (arr nil) entry >>= iterate

-- What a search in one list leaves to do: the trace of what it found, or the rest.
unfoldable pub trace_or : Json → String → Option Json → Result (Option Json) → Result (Option Json)
unfolding build_trace_record
trace_or entry name none rest = rest
trace_or entry name (some event_ref) rest = do
  trace ← build_trace_record entry event_ref name
  ok (some trace)

-- The loops over the entries, the newest one first.
unfoldable pub event_trace_in : String → List Json → Result (Option Json)
unfolding field_is refs_of event_in trace_or
event_trace_in id [] = ok none
event_trace_in id (entry ∷ older) =
    let rest = event_trace_in id older in
    if field_is "entry_type" "worker_execution" entry
    then (do
      accepted ← refs_of "accepted_events" entry
      found ← event_in id accepted
      trace_or entry "accepted" found (do
        rejected ← refs_of "rejected_events" entry
        found_rejected ← event_in id rejected
        trace_or entry "rejected" found_rejected rest))
    else rest

unfoldable pub reversed {ℓ} : {A : Type ℓ} → List A → List A
reversed [] = []
reversed (x ∷ xs) = reversed xs ++ x ∷ []

-- `resolve_event_trace`
unfoldable pub resolve_event_trace : String → LedgerFile → Result (Option Json)
unfolding ledger_check strip read_entries event_trace_in reversed
resolve_event_trace event_id file = do
  _ ← ledger_check (not (no_text (strip event_id)))
  entries ← read_entries file
  event_trace_in event_id (reversed entries)
