-- ===== src/Examples/Runs.antt =====
-- A run with one execution, on which the theorems about runtime/run_ledger.py are applied.
use deterministic_audit_runt.Prelude.{◌≡◌, refl, false, some, none, List, [], ◌∷◌, suc, length}
use deterministic_audit_runt.Prelude.Int.{pos}
use deterministic_audit_runt.Errors.{ok, Result, err, value_error}
use deterministic_audit_runt.Json.{Json, null, int, str, obj, arr, nil, cons, field, end, get}
use deterministic_audit_runt.EventStore.{LedgerFile, append_line}
use deterministic_audit_runt.Examples.Data.{text_field, no_secrets}
use deterministic_audit_runt.RunLedger.{
  WorkerExecutionTraceContext, ExecutionReport, EventOutcome, RunStartResult, start_run,
  start_entry, record_worker_execution, normalize_outcomes, append_entry, execution_entry,
  next_run_id, read_entries, resolve_event_trace, resolve_candidate_lineage, run_number,
}
use deterministic_audit_runt.RunLedger.Persisted.{closed, written_entry}
use deterministic_audit_runt.RunLedger.Reach.{
  Recorded, fresh, started, executed, IsSound, Recorded-IsSound,
}
use deterministic_audit_runt.RunLedger.Traced.{here, resolve_event_trace-recorded}
use deterministic_audit_runt.RunLedger.Written.{written_trace}
use deterministic_audit_runt.RunLedger.NoLineage.{IsLost, resolve_candidate_lineage-IsLost}
use deterministic_audit_runt.RunLedger.FreshRun.{start_run_fresh, FreshRun}
use deterministic_audit_runt.RunLedger.{
  unknown, resolved_promoted, bare_lineage, CandidateTrace, CandidateLineage,
}
use deterministic_audit_runt.Tasks.Text.{strip}
use deterministic_audit_runt.Redaction.{redact_event}
use deterministic_audit_runt.Json.Canonical.{canonical}

abbrev pub context_1 : WorkerExecutionTraceContext
context_1 = record {
  run_id = "run_0001";
  audit_id = "audit_1";
  task_id = "task_1";
  slice_id = "slice_1";
  worker_role = "verify_claim";
  adapter_invocation = obj (text_field "adapter" "codex" end);
  input_digest = some "in_1";
  output_digest = some "out_1";
  slice_fingerprint = none;
  snapshot_ref = some "snap_1";
  prompt_digest = none;
  raw_output_digest = none;
}

abbrev pub report_1 : ExecutionReport
report_1 = record {
  total_candidate_events = pos 1;
  accepted_events = pos 1;
  rejected_events = pos 0;
  execution_status = "succeeded";
  failure_stage = none;
  error_message = none;
}

-- An issue that names its evidence.
abbrev outcome_1 : Json
outcome_1 = obj (
    text_field "event_id" "event_1" (
      text_field "event_type" "issue.proposed" (
        text_field "entity_type" "issue" (
          text_field "entity_id" "issue_1" (
            text_field "outcome" "accepted"
              (field "evidence_observation_ids" (arr (cons (str "obs_1") nil)) end))))))

abbrev normal_1 : EventOutcome
normal_1 = record {
  event_id = some "event_1";
  event_type = some "issue.proposed";
  entity_type = some "issue";
  entity_id = some "issue_1";
  outcome = some "accepted";
  issue_codes = [];
  line_number = null;
  ledger_path = none;
  rejection = null;
}

abbrev empty_runs : LedgerFile
empty_runs = closed []

abbrev pub started_file : LedgerFile
started_file =
    append_entry no_secrets (start_entry [] "run_0001" "audit_1" "snap_1" null) empty_runs

abbrev start_entries : List Json
start_entries = written_entry no_secrets (start_entry [] "run_0001" "audit_1" "snap_1" null) ∷ []

abbrev run_1 : RunStartResult
run_1 = record { run_id = "run_0001"; entry_id = str "trace_00000001"; sequence = int (pos 1) }

start_1 : start_run no_secrets "audit_1" "snap_1" none null empty_runs ≡ ok (run_1, started_file)
unfolding start_run
start_1 = refl

abbrev entry_1 : Json
entry_1 = execution_entry (pos 2) context_1 report_1 (normal_1 ∷ [])

abbrev executed_file : LedgerFile
executed_file = append_entry no_secrets entry_1 started_file

execution_1 :
    record_worker_execution no_secrets context_1 report_1 (outcome_1 ∷ []) started_file
    ≡ ok (entry_1, executed_file)
unfolding record_worker_execution append_line start_entry
execution_1 = refl

started_file-Recorded : Recorded no_secrets started_file
started_file-Recorded = started "audit_1" "snap_1" none null run_1 fresh start_1

executed_file-Recorded : Recorded no_secrets executed_file
executed_file-Recorded =
    executed context_1 report_1 (outcome_1 ∷ []) entry_1 started_file-Recorded execution_1

Recorded-IsSound_example : IsSound no_secrets executed_file
Recorded-IsSound_example = Recorded-IsSound no_secrets executed_file executed_file-Recorded

-- A candidate is promoted, and an issue is proposed with the observation as its evidence.
abbrev pub promotion_1 : Json
promotion_1 = obj (
    text_field "event_id" "event_2" (
      text_field "event_type" "candidate.promoted_to_observation" (
        text_field "entity_type" "candidate" (
          text_field "entity_id" "candidate_1"
            (text_field "outcome" "accepted" (text_field "promoted_observation_id" "obs_1" end))))))

abbrev normal_2 : EventOutcome
normal_2 = record {
  event_id = some "event_2";
  event_type = some "candidate.promoted_to_observation";
  entity_type = some "candidate";
  entity_id = some "candidate_1";
  outcome = some "accepted";
  issue_codes = [];
  line_number = null;
  ledger_path = none;
  rejection = null;
}

abbrev entry_2 : Json
entry_2 = execution_entry (pos 2) context_1 report_1 (normal_2 ∷ normal_1 ∷ [])

abbrev pub promoted_file : LedgerFile
promoted_file = append_entry no_secrets entry_2 started_file

execution_2 :
    record_worker_execution no_secrets context_1 report_1
      (promotion_1 ∷ outcome_1 ∷ [])
      started_file
    ≡ ok (entry_2, promoted_file)
unfolding record_worker_execution append_line start_entry
execution_2 = refl

promoted_file-Recorded : Recorded no_secrets promoted_file
promoted_file-Recorded =
    executed context_1 report_1 (promotion_1 ∷ outcome_1 ∷ []) entry_2 started_file-Recorded
      execution_2

abbrev no_trace : CandidateTrace
no_trace = record {
  proposed_trace = none;
  routed_trace = none;
  rejection_trace = none;
  promotion_trace = none;
  promoted_observation_trace = none;
  outcome = unknown;
  resolved = false;
}

abbrev pub answer_or {ℓ} : {V : Type ℓ} → V → Result V → V
answer_or v (ok w) = w
answer_or v (err e) = v

abbrev lineage_1 : CandidateLineage
lineage_1 =
    answer_or (bare_lineage no_trace false)
      (resolve_candidate_lineage "audit_1" "candidate_1" promoted_file)

lineage_1-resolved : resolve_candidate_lineage "audit_1" "candidate_1" promoted_file ≡ ok lineage_1
unfolding resolve_candidate_lineage append_line start_entry append_entry execution_entry
lineage_1-resolved = refl

lineage_1-promoted : lineage_1.candidate_trace.outcome ≡ resolved_promoted
unfolding resolve_candidate_lineage append_line start_entry append_entry execution_entry
lineage_1-promoted = refl

resolve_candidate_lineage-IsLost_example : IsLost lineage_1
resolve_candidate_lineage-IsLost_example =
    resolve_candidate_lineage-IsLost no_secrets promoted_file "audit_1" "candidate_1" lineage_1
      promoted_file-Recorded lineage_1-resolved

start_run_fresh_example :
    FreshRun no_secrets "audit_1" "snap_2" null started_file start_entries
      (next_run_id start_entries)
unfolding strip read_entries append_entry append_line start_entry
start_run_fresh_example =
    start_run_fresh no_secrets "audit_1" "snap_2" null started_file start_entries refl refl refl

next_1 : next_run_id start_entries ≡ ok "run_0002"
unfolding next_run_id start_entry redact_event canonical
next_1 = refl

pub started_sound : IsSound no_secrets started_file
started_sound = Recorded-IsSound no_secrets started_file started_file-Recorded

resolve_event_trace-recorded_example :
    (ref : Json) × (resolve_event_trace "event_1" executed_file
      ≡ ok (
          some (
            written_trace no_secrets
              (pos (suc (length started_sound.entries)))
              context_1
              report_1
              ref)))
    × (get "event_id" ref ≡ ok (str "event_1"))
unfolding strip normalize_outcomes
resolve_event_trace-recorded_example =
    resolve_event_trace-recorded no_secrets "event_1" context_1 report_1 (outcome_1 ∷ [])
      started_file executed_file entry_1 (normal_1 ∷ []) refl refl started_sound execution_1 refl
      (here normal_1 refl refl)

-- A superscript is a digit for isdigit and none for int; a Devanagari digit is one for both.
superscript : run_number "run_²" ≡ err value_error
unfolding run_number
superscript = refl

devanagari_digit : run_number "run_३" ≡ ok (some 3)
unfolding run_number
devanagari_digit = refl
