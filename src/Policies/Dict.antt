-- ===== src/Policies/Dict.antt =====
-- to_dict of the policies of runtime/policies.py.
use deterministic_audit_runt.Policies.{
  QuestionEmissionPolicy, TaskExpansionPolicy, VerifyClaimBudgetPolicy, ComposeIssueBudgetPolicy,
  CandidateRoutingPolicy, IssueCompositionPolicy, AuditPolicy,
}
use deterministic_audit_runt.Json.{Json, int, str, obj, field, bool, end}

-- The sections of `to_dict`.
abbrev pub question_dict : QuestionEmissionPolicy → Json
question_dict q = obj (
    field "emit_on_ambiguity" (bool q.emit_on_ambiguity) (
      field "emit_on_security_concern" (bool q.emit_on_security_concern) (
        field "emit_on_unclear_intent" (bool q.emit_on_unclear_intent) (
          field "suppress_near_duplicates" (bool q.suppress_near_duplicates)
            (field "max_questions_per_slice" (int q.max_questions_per_slice) end)))))

abbrev pub expansion_dict : TaskExpansionPolicy → Json
expansion_dict e = obj (
    field "verify_claim_per_observation" (bool e.verify_claim_per_observation) (
      field "compose_issue_for_verified" (bool e.compose_issue_for_verified)
        (field "defer_on_budget_soft" (bool e.defer_on_budget_soft) end)))

abbrev pub verify_dict : VerifyClaimBudgetPolicy → Json
verify_dict b = obj (
    field "max_per_audit" (int b.max_per_audit) (
      field "max_per_observation" (int b.max_per_observation)
        (field "max_follow_up_per_iteration" (int b.max_follow_up_per_iteration) end)))

abbrev pub compose_dict : ComposeIssueBudgetPolicy → Json
compose_dict b = obj (
    field "max_per_audit" (int b.max_per_audit) (
      field "max_per_source_path" (int b.max_per_source_path)
        (field "allow_inferred_evidence" (bool b.allow_inferred_evidence) end)))

abbrev pub composition_dict : IssueCompositionPolicy → Json
composition_dict i = obj (
    field "require_rule_binding_for_severity" (bool i.require_rule_binding_for_severity) (
      field "include_low_confidence" (bool i.include_low_confidence)
        (field "min_evidence_class" (str i.min_evidence_class) end)))

abbrev pub routing_dict : CandidateRoutingPolicy → Json
routing_dict r = obj (
    field "max_candidates_per_audit" (int r.max_candidates_per_audit) (
      field "max_verify_tasks_per_run" (int r.max_verify_tasks_per_run) (
        field "max_module_scan_per_cross_file" (int r.max_module_scan_per_cross_file) (
          field "max_total_tasks_per_candidate" (int r.max_total_tasks_per_candidate) (
            field "defer_low_confidence" (bool r.defer_low_confidence) (
              field "suppress_near_duplicate_files" (bool r.suppress_near_duplicate_files) (
                field "route_risk_candidates" (bool r.route_risk_candidates) (
                  field "route_policy_candidates" (bool r.route_policy_candidates) (
                    field "route_cross_file_correlations" (bool r.route_cross_file_correlations) (
                      field "route_verification_targets" (bool r.route_verification_targets)
                        end))))))))))

-- `to_dict`
unfoldable pub policy_dict : AuditPolicy → Json
policy_dict p = obj (
    field "profile_name" (str p.profile_name) (
      field "description" (str p.description) (
        field "question_emission" (question_dict p.question_emission) (
          field "task_expansion" (expansion_dict p.task_expansion) (
            field "verify_claim_budget" (verify_dict p.verify_claim_budget) (
              field "compose_issue_budget" (compose_dict p.compose_issue_budget) (
                field "issue_composition" (composition_dict p.issue_composition)
                  (field "candidate_routing" (routing_dict p.candidate_routing) end))))))))
