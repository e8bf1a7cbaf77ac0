-- ===== src/RunLedger/Findings.antt =====
-- The traces of a report: resolve_finding_trace and resolve_report_trace of runtime/run_ledger.py.
use deterministic_audit_runt.Errors.{Result, ok, err, ◌>>=◌, ledger_error}
use deterministic_audit_runt.Prelude.{
  String, Bool, true, not, ◌&&◌, Option, none, some, List, [], ◌∷◌, text_le,
}
use deterministic_audit_runt.RunLedger.Recording.{is_some}
use deterministic_audit_runt.RunLedger.Entities.{resolve_entity_trace}
use deterministic_audit_runt.RunLedger.File.{field_of, text_of}
use deterministic_audit_runt.Json.{Json, get_default, arr, nil, items}
use deterministic_audit_runt.EventStore.{LedgerFile}
use deterministic_audit_runt.RunLedger.Start.{ledger_check}
use deterministic_audit_runt.RunLedger.Context.{iterate, issue_texts}
use deterministic_audit_runt.Prelude.Sort.{sort}
use deterministic_audit_runt.Tasks.Text.{no_text}

pub record ObservationTrace : Type 0 where
  pub observation_id : String
  pub trace : Option Json

pub record FindingTrace : Type 0 where
  pub issue_trace : Option Json
  pub supporting_observations : List ObservationTrace
  pub resolved : Bool

-- The traces of the observations.
unfoldable pub observation_traces : List String → LedgerFile → Result (List ObservationTrace)
unfolding resolve_entity_trace
observation_traces [] file = ok []
observation_traces (id ∷ ids) file = do
  trace ←
      resolve_entity_trace "observation" id ("observation.verified" ∷ "observation.proposed" ∷ [])
        file
  others ← observation_traces ids file
  ok (record { observation_id = id; trace = trace } ∷ others)

unfoldable pub all_traced : List ObservationTrace → Bool
all_traced [] = true
all_traced (o ∷ os) = is_some o.trace && all_traced os

-- `resolve_finding_trace`
unfoldable pub resolve_finding_trace : String → Json → LedgerFile → Result FindingTrace
unfolding resolve_entity_trace iterate issue_texts sort observation_traces all_traced
resolve_finding_trace issue_id supporting_observation_ids file = do
  issue_trace ← resolve_entity_trace "issue" issue_id ("issue.proposed" ∷ []) file
  values ← iterate supporting_observation_ids
  observations ← observation_traces (sort text_le (issue_texts values)) file
  ok (record {
    issue_trace = issue_trace;
    supporting_observations = observations;
    resolved = is_some issue_trace && all_traced observations;
  })

-- The findings that are dicts with a text as issue_id; others are skipped.
unfoldable pub finding_traces : List Json → LedgerFile → Result (List (String × FindingTrace))
unfolding field_of get_default resolve_finding_trace
finding_traces [] file = ok []
finding_traces (finding ∷ findings) file =
    let rest = finding_traces findings file in
    elim (text_of (field_of "issue_id" finding)) [
      | none ↦ rest
      | some id ↦ do
        ids ← get_default "supporting_observation_ids" (arr nil) finding
        trace ← resolve_finding_trace id ids file
        others ← rest
        ok ((id, trace) ∷ others)
    ]

-- `resolve_report_trace`: the audit and the traces of the findings.
unfoldable pub resolve_report_trace :
    Json → LedgerFile → Result (String × List (String × FindingTrace))
unfolding field_of finding_traces ledger_check
resolve_report_trace report file = elim (text_of (field_of "source_audit_id" report)) [
  | none ↦ err ledger_error
  | some audit_id ↦ do
    _ ← ledger_check (not (no_text audit_id))
    findings ← list_of (field_of "findings" report)
    traces ← finding_traces findings file
    ok (audit_id, traces)
]
  where
    list_of : Option Json → Result (List Json)
    list_of (some (arr vs)) = ok (items vs)
    list_of _ = err ledger_error
