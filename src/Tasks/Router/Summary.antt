-- ===== src/Tasks/Router/Summary.antt =====
-- get_routing_summary of CandidateRouter in runtime/tasks.py. Its `_routing_budget` is an attribute
use deterministic_audit_runt.Prelude.{
  ℕ, suc, String, not, ◌&&◌, none, some, List, [], ◌∷◌, if◌then◌else◌,
}
use deterministic_audit_runt.Errors.{◌>>=◌, attribute_error, Result, err, ok}
use deterministic_audit_runt.Tasks.Planner.{values_of}
use deterministic_audit_runt.Json.{get, Json, obj, get_default, str}
use deterministic_audit_runt.Json.Canonical.{equals}
use deterministic_audit_runt.Tasks.Router.Candidate.{
  extract_primary_file, candidate_type_named, CandidateType, has_text, cross_file_correlation,
  risk_candidate, policy_candidate, verification_target,
}
use deterministic_audit_runt.Tasks.Router.Guards.{needs_file}

-- that no method of the class assigns, so that reading it raises.
pub record RoutingSummary : Type 0 where
  pub total_candidates : ℕ
  pub routed_to_verify : ℕ
  pub deferred_low_confidence : ℕ
  pub already_processed : ℕ
  pub invalid_type : ℕ
  pub no_evidence_refs : ℕ
  pub cross_file_tasks : ℕ

abbrev pub empty_summary : RoutingSummary
empty_summary = record {
  total_candidates = 0;
  routed_to_verify = 0;
  deferred_low_confidence = 0;
  already_processed = 0;
  invalid_type = 0;
  no_evidence_refs = 0;
  cross_file_tasks = 0;
}

-- A proposed candidate of a known type.
unfoldable pub summarize_typed :
    CandidateType → Json → Json → RoutingSummary → Result RoutingSummary
unfolding equals extract_primary_file get_default
summarize_typed candidate_type candidate confidence s =
    if equals confidence (str "low") then err attribute_error else (do
      primary_file ← extract_primary_file candidate
      if not (has_text primary_file) && needs_file candidate_type
          then ok (record s { no_evidence_refs = suc s.no_evidence_refs })
          else elim candidate_type [
            | cross_file_correlation ↦ err attribute_error
            | risk_candidate ↦ ok (record s { routed_to_verify = suc s.routed_to_verify })
            | policy_candidate ↦ ok (record s { routed_to_verify = suc s.routed_to_verify })
            | verification_target ↦ ok (record s { routed_to_verify = suc s.routed_to_verify })
          ])

unfoldable pub summarize_candidate : Json → RoutingSummary → Result RoutingSummary
unfolding get equals candidate_type_named summarize_typed
summarize_candidate candidate s = do
  status ← get "status" candidate
  named ← get "candidate_type" candidate
  confidence ← get "confidence" candidate
  if not (equals status (str "proposed"))
      then ok (record s { already_processed = suc s.already_processed })
      else elim (candidate_type_named named) [
        | none ↦ ok (record s { invalid_type = suc s.invalid_type })
        | some candidate_type ↦ summarize_typed candidate_type candidate confidence s
      ]

unfoldable pub summary_loop : String → List Json → RoutingSummary → Result RoutingSummary
unfolding get equals summarize_candidate
summary_loop audit_id [] s = ok s
summary_loop audit_id (candidate ∷ rest) s = do
  audit ← get "audit_id" candidate
  next ←
      if equals audit (str audit_id)
      then summarize_candidate candidate (record s { total_candidates = suc s.total_candidates })
      else ok s
  summary_loop audit_id rest next

-- `get_routing_summary`
unfoldable pub get_routing_summary : String → Json → Result RoutingSummary
unfolding summary_loop values_of
get_routing_summary audit_id (obj candidates) =
    summary_loop audit_id (values_of candidates) empty_summary
get_routing_summary audit_id _ = err attribute_error
