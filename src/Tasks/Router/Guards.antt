-- ===== src/Tasks/Router/Guards.antt =====
-- The guardrails of CandidateRouter of runtime/tasks.py that stand before the routing of a candidate.
use deterministic_audit_runt.Prelude.{
  ℕ, String, Bool, true, false, not, ◌&&◌, ◌||◌, Option, none, some, ltb, if◌then◌else◌,
}
use deterministic_audit_runt.Errors.{◌>>=◌, Result, ok}
use deterministic_audit_runt.Prelude.Int.{ℤ, pos, negsuc}
use deterministic_audit_runt.Json.{get, Json, str}
use deterministic_audit_runt.Json.Canonical.{equals}
use deterministic_audit_runt.Tasks.Router.Candidate.{
  extract_primary_file, CandidateType, Refusal, risk_candidate, candidate_type_named,
  get_candidate_snapshot_ref, deferred_audit_limit, invalid_type, policy_candidate,
  deferred_low_confidence, check_type_routing_enabled, suppressed_type_disabled, already_processed,
  has_text, no_evidence_refs, deferred_run_limit, no_snapshot_ref,
}
use deterministic_audit_runt.Policies.{at_limit, CandidateRoutingPolicy}

-- `count > limit`
unfoldable pub above_limit : ℕ → ℤ → Bool
above_limit n (pos m) = ltb m n
above_limit n (negsuc m) = true

-- What the guardrails say: the outcome of a placeholder, or the type and the snapshot to route.
pub data Guarded : Type 0 where
  refused : Refusal → Guarded
  admitted : CandidateType → String → Guarded

abbrev pub is_confidence : Json → Bool
is_confidence v = equals v (str "high") || equals v (str "medium") || equals v (str "low")

-- Behind the type: its confidence and its toggle.
unfoldable pub confidence_refusal : CandidateRoutingPolicy → CandidateType → Json → Option Refusal
unfolding equals
confidence_refusal p candidate_type confidence =
    if not (is_confidence confidence)
    then some invalid_type
    else if equals confidence (str "low") && p.defer_low_confidence
    then some deferred_low_confidence
    else if not (check_type_routing_enabled p candidate_type)
    then some suppressed_type_disabled
    else none

-- `candidate_type in ("risk_candidate", "policy_candidate")`
abbrev pub needs_file : CandidateType → Bool
needs_file risk_candidate = true
needs_file policy_candidate = true
needs_file _ = false

-- The evidence, the limit of the run and the snapshot.
unfoldable pub evidence_guards :
    CandidateRoutingPolicy → CandidateType → Json → ℕ → Option String → Result Guarded
unfolding extract_primary_file at_limit get_candidate_snapshot_ref
evidence_guards p candidate_type candidate verify_tasks audit_snapshot_ref = do
  primary_file ← extract_primary_file candidate
  if not (has_text primary_file) && needs_file candidate_type
      then ok (refused no_evidence_refs)
      else if at_limit verify_tasks p.max_verify_tasks_per_run
      then ok (refused deferred_run_limit)
      else (do
        snapshot_ref ← get_candidate_snapshot_ref candidate audit_snapshot_ref
        ok (elim snapshot_ref [
          | none ↦ refused no_snapshot_ref
          | some s ↦ admitted candidate_type s
        ]))

-- The guardrails in their order, for the candidate that is this one of its audit.
unfoldable pub guard_candidate :
    CandidateRoutingPolicy → ℕ → ℕ → Json → Option String → Result Guarded
unfolding above_limit get equals candidate_type_named confidence_refusal evidence_guards
guard_candidate p candidates verify_tasks candidate audit_snapshot_ref =
    if above_limit candidates p.max_candidates_per_audit
    then ok (refused deferred_audit_limit)
    else (do
      status ← get "status" candidate
      named ← get "candidate_type" candidate
      confidence ← get "confidence" candidate
      if not (equals status (str "proposed"))
          then ok (refused already_processed)
          else elim (candidate_type_named named) [
            | none ↦ ok (refused invalid_type)
            | some candidate_type ↦ elim (confidence_refusal p candidate_type confidence) [
              | some outcome ↦ ok (refused outcome)
              | none ↦ evidence_guards p candidate_type candidate verify_tasks audit_snapshot_ref
            ]
          ])
