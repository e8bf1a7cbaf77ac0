-- ===== src/RunLedger/Candidates.antt =====
-- The life of a candidate: resolve_candidate_trace and resolve_candidate_lineage of
-- runtime/run_ledger.py.
use deterministic_audit_runt.Errors.{Result, ok, err, ◌>>=◌, ledger_error}
use deterministic_audit_runt.Prelude.{
  String, Bool, true, false, not, Option, none, some, List, [], ◌∷◌, map, if◌then◌else◌,
}
use deterministic_audit_runt.RunLedger.Entities.{resolve_entity_trace}
use deterministic_audit_runt.RunLedger.Start.{ledger_check}
use deterministic_audit_runt.Json.{Json, get, str, get_default, is_falsy, obj, end}
use deterministic_audit_runt.RunLedger.File.{field_of, field_is}
use deterministic_audit_runt.RunLedger.Lineage.{
  IssueReference, names_observation, find_issues_referencing_observation,
}
use deterministic_audit_runt.EventStore.{LedgerFile}
use deterministic_audit_runt.Tasks.Text.{strip, no_text}

pub data CandidateStatus : Type 0 where
  unknown proposed routed_to_verify rejected resolved_promoted : CandidateStatus

pub record CandidateTrace : Type 0 where
  pub proposed_trace : Option Json
  pub routed_trace : Option Json
  pub rejection_trace : Option Json
  pub promotion_trace : Option Json
  pub promoted_observation_trace : Option Json
  pub outcome : CandidateStatus
  pub resolved : Bool

-- `_trace_matches_event_type`
unfoldable pub trace_matches_event_type : String → Option Json → Bool
unfolding field_of
trace_matches_event_type event_type none = false
trace_matches_event_type event_type (some trace) = elim (field_of "event" trace) [
  | none ↦ false
  | some event ↦ field_is "event_type" event_type event
]

-- The trace of an event of the candidate, or None if it is one of another type.
unfoldable pub candidate_event_trace : String → String → LedgerFile → Result (Option Json)
unfolding resolve_entity_trace trace_matches_event_type
candidate_event_trace candidate_id event_type file = do
  trace ← resolve_entity_trace "candidate" candidate_id (event_type ∷ []) file
  ok (if trace_matches_event_type event_type trace then trace else none)

-- Which trace says how the candidate ended.
abbrev pub outcome_of : Option Json → Option Json → Option Json → Option Json → CandidateStatus
outcome_of (some t) rejection routed proposal = resolved_promoted
outcome_of none (some t) routed proposal = rejected
outcome_of none none (some t) proposal = routed_to_verify
outcome_of none none none (some t) = proposed
outcome_of none none none none = unknown

abbrev pub is_resolved : CandidateStatus → Bool
is_resolved resolved_promoted = true
is_resolved rejected = true
is_resolved _ = false

-- The trace of an observation, which is refused if its id is no text.
unfoldable pub observation_trace_of : Json → LedgerFile → Result (Option Json)
unfolding resolve_entity_trace
observation_trace_of (str id) file =
    resolve_entity_trace "observation" id ("observation.verified" ∷ "observation.proposed" ∷ [])
      file
observation_trace_of v file = err ledger_error

-- The trace of the observation that the event of a promotion names.
unfoldable pub promoted_observation_of : Option Json → LedgerFile → Result (Option Json)
unfolding get is_falsy observation_trace_of
promoted_observation_of none file = ok none
promoted_observation_of (some trace) file = do
  event ← get "event" trace
  if is_falsy event then ok none else (do
    id ← get "promoted_observation_id" event
    if is_falsy id then ok none else observation_trace_of id file)

-- `resolve_candidate_trace`
unfoldable pub resolve_candidate_trace : String → String → LedgerFile → Result CandidateTrace
unfolding ledger_check strip candidate_event_trace promoted_observation_of
resolve_candidate_trace audit_id candidate_id file = do
  _ ← ledger_check (not (no_text (strip audit_id)))
  _ ← ledger_check (not (no_text (strip candidate_id)))
  proposal ← candidate_event_trace candidate_id "candidate.proposed" file
  routed ← candidate_event_trace candidate_id "candidate.routed_to_verify" file
  rejection ← candidate_event_trace candidate_id "candidate.rejected" file
  promotion ← candidate_event_trace candidate_id "candidate.promoted_to_observation" file
  observation ← promoted_observation_of promotion file
  let outcome = outcome_of promotion rejection routed proposal
  ok (record {
    proposed_trace = proposal;
    routed_trace = routed;
    rejection_trace = rejection;
    promotion_trace = promotion;
    promoted_observation_trace = observation;
    outcome = outcome;
    resolved = is_resolved outcome;
  })

pub record FindingLineage : Type 0 where
  pub issue_id : Json
  pub issue_trace : Option Json
  pub is_primary_evidence : Bool

pub record CandidateLineage : Type 0 where
  pub candidate_trace : CandidateTrace
  pub observation_lineage : Option (Json × Json)
  pub issue_lineage : List IssueReference
  pub finding_lineage : List FindingLineage
  pub complete : Bool

abbrev pub bare_lineage : CandidateTrace → Bool → CandidateLineage
bare_lineage trace complete = record {
  candidate_trace = trace;
  observation_lineage = none;
  issue_lineage = [];
  finding_lineage = [];
  complete = complete;
}

abbrev pub finding_of : Json → IssueReference → FindingLineage
finding_of observation_id r = record {
  issue_id = r.issue_id;
  issue_trace = r.issue_trace;
  is_primary_evidence = names_observation observation_id r.evidence_observation_ids;
}

abbrev pub any_reference : List IssueReference → Bool
any_reference [] = false
any_reference (r ∷ rs) = true

-- The lineage of a promoted candidate whose observation has a trace.
unfoldable pub observation_lineage_of :
    String → CandidateTrace → Json → LedgerFile → Result CandidateLineage
unfolding get get_default is_falsy find_issues_referencing_observation
observation_lineage_of audit_id trace observation file = do
  event ← get_default "event" (obj end) observation
  observation_id ← get "entity_id" event
  if is_falsy observation_id then ok (bare_lineage trace false) else (do
    issues ← find_issues_referencing_observation audit_id observation_id file
    ok (record {
      candidate_trace = trace;
      observation_lineage = some (observation_id, observation);
      issue_lineage = issues;
      finding_lineage = map (finding_of observation_id) issues;
      complete = any_reference issues;
    }))

unfoldable pub lineage_of : String → CandidateTrace → LedgerFile → Result CandidateLineage
unfolding observation_lineage_of
lineage_of audit_id trace file = elim trace.outcome [
  | resolved_promoted ↦ elim trace.promoted_observation_trace [
    | none ↦ ok (bare_lineage trace false)
    | some observation ↦ observation_lineage_of audit_id trace observation file
  ]
  | _ ↦ ok (bare_lineage trace trace.resolved)
]

-- `resolve_candidate_lineage`
unfoldable pub resolve_candidate_lineage : String → String → LedgerFile → Result CandidateLineage
unfolding resolve_candidate_trace lineage_of
resolve_candidate_lineage audit_id candidate_id file = do
  trace ← resolve_candidate_trace audit_id candidate_id file
  lineage_of audit_id trace file
