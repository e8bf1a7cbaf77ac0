-- ===== src/Policies.antt =====
-- The policies of runtime/policies.py. A limit is any int of the file.
pub mod Dict
pub mod Read
pub mod Store
pub mod RoundTrip
pub mod Cached
use deterministic_audit_runt.Prelude.{ℕ, String, Bool, true, leb}
use deterministic_audit_runt.Prelude.Int.{ℤ, pos, negsuc}

pub record QuestionEmissionPolicy : Type 0 where
  pub emit_on_ambiguity : Bool
  pub emit_on_security_concern : Bool
  pub emit_on_unclear_intent : Bool
  pub suppress_near_duplicates : Bool
  pub max_questions_per_slice : ℤ

pub record TaskExpansionPolicy : Type 0 where
  pub verify_claim_per_observation : Bool
  pub compose_issue_for_verified : Bool
  pub defer_on_budget_soft : Bool

pub record VerifyClaimBudgetPolicy : Type 0 where
  pub max_per_audit : ℤ
  pub max_per_observation : ℤ
  pub max_follow_up_per_iteration : ℤ

pub record ComposeIssueBudgetPolicy : Type 0 where
  pub max_per_audit : ℤ
  pub max_per_source_path : ℤ
  pub allow_inferred_evidence : Bool

pub record CandidateRoutingPolicy : Type 0 where
  pub max_candidates_per_audit : ℤ
  pub max_verify_tasks_per_run : ℤ
  pub max_module_scan_per_cross_file : ℤ
  pub max_total_tasks_per_candidate : ℤ
  pub defer_low_confidence : Bool
  pub suppress_near_duplicate_files : Bool
  pub route_risk_candidates : Bool
  pub route_policy_candidates : Bool
  pub route_cross_file_correlations : Bool
  pub route_verification_targets : Bool

pub record IssueCompositionPolicy : Type 0 where
  pub require_rule_binding_for_severity : Bool
  pub include_low_confidence : Bool
  pub min_evidence_class : String

pub record AuditPolicy : Type 0 where
  pub profile_name : String
  pub description : String
  pub question_emission : QuestionEmissionPolicy
  pub task_expansion : TaskExpansionPolicy
  pub verify_claim_budget : VerifyClaimBudgetPolicy
  pub compose_issue_budget : ComposeIssueBudgetPolicy
  pub issue_composition : IssueCompositionPolicy
  pub candidate_routing : CandidateRoutingPolicy

-- `count >= limit`
unfoldable pub at_limit : ℕ → ℤ → Bool
at_limit n (pos m) = leb m n
at_limit n (negsuc m) = true
