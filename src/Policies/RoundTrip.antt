-- ===== src/Policies/RoundTrip.antt =====
-- The dict of a policy of runtime/policies.py, read as a profile.
use deterministic_audit_runt.Prelude.{◌≡◌, refl, Bool, true, false, not}
use deterministic_audit_runt.Errors.{ok}
use deterministic_audit_runt.Policies.{AuditPolicy}
use deterministic_audit_runt.Policies.Read.{Casts, read_profile}
use deterministic_audit_runt.Json.{get_default, lookup, is_falsy, item}
use deterministic_audit_runt.Policies.Dict.{policy_dict}
use deterministic_audit_runt.Tasks.Text.{strip}

not-not : (b : Bool) → not (not b) ≡ b
not-not true = refl
not-not false = refl

-- The dict of a policy, taken as the data of the profile of its name, reads back as the policy, if
-- its description has no white space around it.
pub read_profile-policy_dict :
    (c : Casts) (p : AuditPolicy)
    → strip p.description ≡ p.description
    → read_profile c p.profile_name (policy_dict p) ≡ ok p
unfolding read_profile policy_dict get_default item lookup is_falsy
read_profile-policy_dict c p stripped =
    rw
      (
        not-not p.question_emission.emit_on_ambiguity,
        not-not p.question_emission.emit_on_security_concern,
        not-not p.question_emission.emit_on_unclear_intent,
        not-not p.question_emission.suppress_near_duplicates,
        not-not p.task_expansion.verify_claim_per_observation,
        not-not p.task_expansion.compose_issue_for_verified,
        not-not p.task_expansion.defer_on_budget_soft,
        not-not p.compose_issue_budget.allow_inferred_evidence,
        not-not p.issue_composition.require_rule_binding_for_severity,
        not-not p.issue_composition.include_low_confidence,
        not-not p.candidate_routing.defer_low_confidence,
        not-not p.candidate_routing.suppress_near_duplicate_files,
        not-not p.candidate_routing.route_risk_candidates,
        not-not p.candidate_routing.route_policy_candidates,
        not-not p.candidate_routing.route_cross_file_correlations,
        not-not p.candidate_routing.route_verification_targets,
        stripped,
      )
      refl
