-- ===== src/Examples/Candidates.antt =====
-- A candidate that was promoted, in the queries of runtime/run_ledger.py.
use deterministic_audit_runt.Errors.{ok}
use deterministic_audit_runt.Prelude.{◌≡◌, refl, some, List, [], ◌∷◌, length, All}
use deterministic_audit_runt.RunLedger.Counted.{
  IsCounted, resolve_candidate_forensic_trace-IsCounted,
}
use deterministic_audit_runt.RunLedger.{
  resolve_candidate_forensic_trace, ForensicTrace, list_candidates_by_outcome, CandidateSummary,
  record_worker_execution, start_entry, event_le, append_entry, execution_entry,
}
use deterministic_audit_runt.Json.{Json, obj, end}
use deterministic_audit_runt.EventStore.{LedgerFile, append_line}
use deterministic_audit_runt.RunLedger.Distinct.{AreDistinct}
use deterministic_audit_runt.Examples.Runs.{
  answer_or, promoted_file, started_file, context_1, report_1, promotion_1,
}
use deterministic_audit_runt.Prelude.Sort.{IsSorted}
use deterministic_audit_runt.RunLedger.Listed.{HasOutcome, list_candidates_by_outcome-AreDistinct}
use deterministic_audit_runt.Examples.Data.{text_field, no_secrets}

abbrev events_1 : ForensicTrace
events_1 =
    answer_or (record { all_events = []; accepted_count = 0; rejected_count = 0 })
      (resolve_candidate_forensic_trace "audit_1" "candidate_1" promoted_file)

events_1-resolved :
    resolve_candidate_forensic_trace "audit_1" "candidate_1" promoted_file ≡ ok events_1
unfolding resolve_candidate_forensic_trace append_line start_entry append_entry execution_entry
events_1-resolved = refl

events_1-count : events_1.accepted_count ≡ 1
unfolding resolve_candidate_forensic_trace append_line start_entry append_entry execution_entry
events_1-count = refl

resolve_candidate_forensic_trace-IsCounted_example :
    IsCounted events_1 × IsSorted event_le events_1.all_events
resolve_candidate_forensic_trace-IsCounted_example =
    resolve_candidate_forensic_trace-IsCounted "audit_1" "candidate_1" promoted_file events_1
      events_1-resolved

abbrev proposal_1 : Json
proposal_1 = obj (
    text_field "event_id" "event_3" (
      text_field "event_type" "candidate.proposed" (
        text_field "entity_type" "candidate"
          (text_field "entity_id" "candidate_1" (text_field "outcome" "accepted" end)))))

abbrev proposed_file : LedgerFile
proposed_file =
    (answer_or (obj end, started_file)
      (record_worker_execution no_secrets context_1 report_1 (proposal_1 ∷ promotion_1 ∷ [])
        started_file)).1

abbrev listed_1 : List CandidateSummary
listed_1 =
    answer_or [] (list_candidates_by_outcome "audit_1" (some "resolved_promoted") proposed_file)

listed_1-answered :
    list_candidates_by_outcome "audit_1" (some "resolved_promoted") proposed_file ≡ ok listed_1
unfolding list_candidates_by_outcome record_worker_execution append_line start_entry append_entry
    execution_entry
listed_1-answered = refl

listed_1-length : length listed_1 ≡ 1
unfolding list_candidates_by_outcome record_worker_execution append_line start_entry append_entry
    execution_entry
listed_1-length = refl

list_candidates_by_outcome-AreDistinct_example :
    AreDistinct listed_1 × All (HasOutcome (some "resolved_promoted")) listed_1
list_candidates_by_outcome-AreDistinct_example =
    list_candidates_by_outcome-AreDistinct "audit_1" (some "resolved_promoted") proposed_file
      listed_1 listed_1-answered
