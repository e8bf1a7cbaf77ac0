-- ===== src/Tasks/Router/Candidate.antt =====
-- What CandidateRouter of runtime/tasks.py reads of a candidate, and what it answers with.
use deterministic_audit_runt.Prelude.{String, Bool, Option, none, some, if◌then◌else◌, false, not}
use Prim.Native.String.{◌++◌}
use deterministic_audit_runt.Errors.{◌>>=◌, Result, ok}
use deterministic_audit_runt.Tasks.Queue.{EnqueueOutcome}
use deterministic_audit_runt.Tasks.Text.{no_text, normalize_target_value}
use deterministic_audit_runt.Policies.{CandidateRoutingPolicy}
use deterministic_audit_runt.Json.{get_default, Json, str, arr, nil, null}
use deterministic_audit_runt.Tasks.Types.{
  new_target, AuditTask, new_task, Host, or_text, verify_claim, pending,
}
use deterministic_audit_runt.Json.Canonical.{equals}
use deterministic_audit_runt.Tasks.Planner.{iterate_or, first_given}
use deterministic_audit_runt.RunLedger.{iterate}

-- The outcomes for a task that is not handed to the queue.
pub data Refusal : Type 0 where
  deferred_low_confidence deferred_budget deferred_audit_limit deferred_run_limit : Refusal
  suppressed_type_disabled already_processed : Refusal
  invalid_type no_evidence_refs no_snapshot_ref : Refusal

-- The outcomes of an EnqueueResult of the router.
pub data RoutingOutcome : Type 0 where
  queued_as : EnqueueOutcome → RoutingOutcome
  held_back : Refusal → RoutingOutcome

pub record RoutingResult : Type 0 where
  pub routing_outcome : RoutingOutcome
  pub task : AuditTask

-- CANDIDATE_TYPES
pub data CandidateType : Type 0 where
  risk_candidate policy_candidate cross_file_correlation verification_target : CandidateType

unfoldable pub candidate_type_named : Json → Option CandidateType
unfolding equals
candidate_type_named v =
    if equals v (str "risk_candidate")
    then some risk_candidate
    else if equals v (str "policy_candidate")
    then some policy_candidate
    else if equals v (str "cross_file_correlation")
    then some cross_file_correlation
    else if equals v (str "verification_target")
    then some verification_target
    else none

-- `_check_type_routing_enabled`
abbrev pub check_type_routing_enabled : CandidateRoutingPolicy → CandidateType → Bool
check_type_routing_enabled p risk_candidate = p.route_risk_candidates
check_type_routing_enabled p policy_candidate = p.route_policy_candidates
check_type_routing_enabled p cross_file_correlation = p.route_cross_file_correlations
check_type_routing_enabled p verification_target = p.route_verification_targets

-- `_extract_primary_file`
unfoldable pub extract_primary_file : Json → Result (Option String)
unfolding get_default iterate_or first_given normalize_target_value
extract_primary_file candidate = do
  evidence_refs ← get_default "supporting_evidence_refs" (arr nil) candidate
  refs ← iterate_or evidence_refs
  found ← first_given "file_path" refs
  ok (elim found [ none ↦ none | some path ↦ some (normalize_target_value "path" path) ])

-- A text that is not empty.
abbrev pub truthy_text : Option String → Option String
truthy_text none = none
truthy_text (some s) = if no_text s then none else some s

abbrev pub has_text : Option String → Bool
has_text none = false
has_text (some s) = not (no_text s)

-- `_get_candidate_snapshot_ref`: none is the CandidateRoutingError, which its caller catches.
unfoldable pub get_candidate_snapshot_ref : Json → Option String → Result (Option String)
unfolding get_default iterate first_given
get_candidate_snapshot_ref candidate audit_snapshot_ref = do
  evidence_refs ← get_default "supporting_evidence_refs" (arr nil) candidate
  refs ← iterate evidence_refs
  found ← first_given "snapshot_ref" refs
  ok (elim found [ none ↦ truthy_text audit_snapshot_ref | some s ↦ some s ])

-- `_create_placeholder_task`: the target, then the task, are checked as any other is.
unfoldable pub create_placeholder_task :
    Host → String → String → Option String → Option String → Result AuditTask
unfolding new_target new_task
create_placeholder_task host audit_id candidate_id audit_snapshot_ref created_at = do
  target ←
      new_target (str "candidate") (str candidate_id) (str (or_text audit_snapshot_ref "")) null
  let stamp = or_text created_at host.now
  new_task host (record {
    id = "task_placeholder_" ++ candidate_id;
    audit_id = audit_id;
    task_type = verify_claim;
    status = pending;
    target = target;
    attempt_count = 0;
    last_error = none;
    created_at = stamp;
    updated_at = stamp;
  })
