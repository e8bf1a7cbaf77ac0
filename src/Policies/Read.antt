-- ===== src/Policies/Read.antt =====
-- The policy that get_policy of runtime/policies.py builds from the data of a profile.
use deterministic_audit_runt.Prelude.{ℕ, String, Bool, true, false, not}
use deterministic_audit_runt.Errors.{◌>>=◌, type_error, Result, err, ok}
use deterministic_audit_runt.Policies.{
  QuestionEmissionPolicy, TaskExpansionPolicy, VerifyClaimBudgetPolicy, ComposeIssueBudgetPolicy,
  CandidateRoutingPolicy, IssueCompositionPolicy, AuditPolicy,
}
use deterministic_audit_runt.Prelude.Int.{ℤ, pos}
use deterministic_audit_runt.Json.{
  Json, get_default, int, str, is_falsy, item, obj, bool, float, end,
}
use deterministic_audit_runt.Tasks.Planner.{Shown, str_of}
use deterministic_audit_runt.Tasks.Text.{strip}
use deterministic_audit_runt.Tasks.Types.{strippable}

-- What int makes of a float and of a text, and what str makes of what is no text.
pub record Casts : Type 0 where
  pub int_of_float : String → Result ℤ
  pub int_of_text : String → Result ℤ
  pub text : Shown

-- `int(value)`
abbrev pub to_int : Casts → Json → Result ℤ
to_int c (int n) = ok n
to_int c (bool true) = ok (pos 1)
to_int c (bool false) = ok (pos 0)
to_int c (float s) = c.int_of_float s
to_int c (str s) = c.int_of_text s
to_int c _ = err type_error

-- `bool(section.get(key, default))`
unfoldable pub read_flag : String → Bool → Json → Result Bool
unfolding get_default is_falsy
read_flag key default section = do v ← get_default key (bool default) section; ok (not (is_falsy v))

-- `int(section.get(key, default))`
unfoldable pub read_limit : Casts → String → ℕ → Json → Result ℤ
unfolding get_default
read_limit c key default section = do v ← get_default key (int (pos default)) section; to_int c v

unfoldable pub read_question_emission : Casts → Json → Result QuestionEmissionPolicy
unfolding read_flag read_limit
read_question_emission c section = do
  ambiguity ← read_flag "emit_on_ambiguity" true section
  security ← read_flag "emit_on_security_concern" true section
  intent ← read_flag "emit_on_unclear_intent" false section
  suppress ← read_flag "suppress_near_duplicates" false section
  questions ← read_limit c "max_questions_per_slice" 10 section
  ok (record {
    emit_on_ambiguity = ambiguity;
    emit_on_security_concern = security;
    emit_on_unclear_intent = intent;
    suppress_near_duplicates = suppress;
    max_questions_per_slice = questions;
  })

unfoldable pub read_task_expansion : Json → Result TaskExpansionPolicy
unfolding read_flag
read_task_expansion section = do
  verify ← read_flag "verify_claim_per_observation" true section
  compose ← read_flag "compose_issue_for_verified" true section
  soft ← read_flag "defer_on_budget_soft" false section
  ok (record {
    verify_claim_per_observation = verify;
    compose_issue_for_verified = compose;
    defer_on_budget_soft = soft;
  })

unfoldable pub read_verify_claim_budget : Casts → Json → Result VerifyClaimBudgetPolicy
unfolding read_limit
read_verify_claim_budget c section = do
  audit ← read_limit c "max_per_audit" 100 section
  observation ← read_limit c "max_per_observation" 1 section
  iteration ← read_limit c "max_follow_up_per_iteration" 5 section
  ok (record {
    max_per_audit = audit;
    max_per_observation = observation;
    max_follow_up_per_iteration = iteration;
  })

unfoldable pub read_compose_issue_budget : Casts → Json → Result ComposeIssueBudgetPolicy
unfolding read_flag read_limit
read_compose_issue_budget c section = do
  audit ← read_limit c "max_per_audit" 24 section
  source ← read_limit c "max_per_source_path" 4 section
  inferred ← read_flag "allow_inferred_evidence" false section
  ok (record {
    max_per_audit = audit;
    max_per_source_path = source;
    allow_inferred_evidence = inferred;
  })

unfoldable pub read_issue_composition : Casts → Json → Result IssueCompositionPolicy
unfolding read_flag get_default
read_issue_composition c section = do
  binding ← read_flag "require_rule_binding_for_severity" true section
  low ← read_flag "include_low_confidence" false section
  evidence ← get_default "min_evidence_class" (str "derived_structural_fact") section
  ok (record {
    require_rule_binding_for_severity = binding;
    include_low_confidence = low;
    min_evidence_class = str_of c.text evidence;
  })

unfoldable pub read_candidate_routing : Casts → Json → Result CandidateRoutingPolicy
unfolding read_flag read_limit
read_candidate_routing c section = do
  candidates ← read_limit c "max_candidates_per_audit" 50 section
  verify ← read_limit c "max_verify_tasks_per_run" 20 section
  scans ← read_limit c "max_module_scan_per_cross_file" 3 section
  total ← read_limit c "max_total_tasks_per_candidate" 3 section
  low ← read_flag "defer_low_confidence" true section
  near ← read_flag "suppress_near_duplicate_files" true section
  risks ← read_flag "route_risk_candidates" true section
  policies ← read_flag "route_policy_candidates" true section
  correlations ← read_flag "route_cross_file_correlations" true section
  targets ← read_flag "route_verification_targets" true section
  ok (record {
    max_candidates_per_audit = candidates;
    max_verify_tasks_per_run = verify;
    max_module_scan_per_cross_file = scans;
    max_total_tasks_per_candidate = total;
    defer_low_confidence = low;
    suppress_near_duplicate_files = near;
    route_risk_candidates = risks;
    route_policy_candidates = policies;
    route_cross_file_correlations = correlations;
    route_verification_targets = targets;
  })

-- The AuditPolicy that `get_policy` builds from the data of a profile.
unfoldable pub read_profile : Casts → String → Json → Result AuditPolicy
unfolding get_default item strip read_question_emission read_task_expansion read_verify_claim_budget
    read_compose_issue_budget read_issue_composition read_candidate_routing
read_profile c name profile = do
  description ← get_default "description" (str "") profile >>= strippable
  questions ← item "question_emission" profile >>= read_question_emission c
  expansion ← item "task_expansion" profile >>= read_task_expansion
  verify ← get_default "verify_claim_budget" (obj end) profile >>= read_verify_claim_budget c
  compose ← item "compose_issue_budget" profile >>= read_compose_issue_budget c
  composition ← item "issue_composition" profile >>= read_issue_composition c
  routing ← get_default "candidate_routing" (obj end) profile >>= read_candidate_routing c
  ok (record {
    profile_name = name;
    description = strip description;
    question_emission = questions;
    task_expansion = expansion;
    verify_claim_budget = verify;
    compose_issue_budget = compose;
    issue_composition = composition;
    candidate_routing = routing;
  })
