-- ===== src/Processing/Table.antt =====
-- `_VALIDATOR_CODE_TO_REJECTION` and `_trace_rejection` of runtime/processing.py.
use deterministic_audit_runt.Prelude.{
  Option, none, some, List, [], ◌∷◌, String, if◌then◌else◌, elem,
}
use deterministic_audit_runt.Rejection.{
  RejectionReason, RejectionStage, schema_invalid, policy_rejected, transport_rejected, schema,
  policy, transport,
}
use deterministic_audit_runt.Validators.Issue.{ValidationIssue, codes_of}

-- The codes that the table maps to each of the three pairs that it uses.
abbrev pub schema_codes : List String
schema_codes =
    "candidate_event_not_object" ∷ "missing_acceptance_metadata" ∷ "candidate_event_not_pending"
    ∷ "schema_validation_failed" ∷ "payload_entity_id_mismatch" ∷ "payload_audit_id_mismatch"
    ∷ "missing_source_refs" ∷ "missing_line_range" ∷ "incomplete_line_range"
    ∷ "invalid_line_range_type" ∷ "invalid_line_range" ∷ "OBS_empty_statement"
    ∷ "OBS_no_source_refs" ∷ "OBS_no_source" ∷ "OBS_empty_semantic" ∷ "HYP_empty_statement"
    ∷ "HYP_empty_rationale" ∷ []

abbrev pub transport_codes : List String
transport_codes =
    "inferred_line_range" ∷ "invalid_column_range" ∷ "append_failed" ∷ "append_not_persisted"
    ∷ "OBS_fake_binding" ∷ "state_projection_failed" ∷ []

abbrev pub policy_codes : List String
policy_codes =
    "duplicate_submission" ∷ "event_id_conflict" ∷ "idempotency_conflict" ∷ "invalid_transition"
    ∷ "missing_worker_role" ∷ "worker_event_forbidden" ∷ "referenced_entity_missing"
    ∷ "referenced_entity_wrong_state" ∷ "referenced_entity_field_forbidden"
    ∷ "field_dependency_failed" ∷ "forbidden_entity_promotion" ∷ "promotion_missing_observation_id"
    ∷ "promotion_candidate_not_found" ∷ "promotion_observation_not_found"
    ∷ "promotion_observation_link_mismatch" ∷ []

-- `.get(code, _FALLBACK)`
unfoldable pub rejection_of : String → RejectionReason × RejectionStage
rejection_of code =
    if elem code schema_codes
    then (schema_invalid, schema)
    else if elem code transport_codes
    then (transport_rejected, transport)
    else if elem code policy_codes
    then (policy_rejected, policy)
    else (schema_invalid, schema)

-- The texts of the issues are left out.
pub record TraceRejection : Type 0 where
  pub rejection_code : RejectionReason
  pub rejection_layer : RejectionStage
  pub validator : String
  pub validator_code : String
  pub all_issue_codes : List String

unfoldable pub trace_rejection : List ValidationIssue → Option TraceRejection
unfolding rejection_of
trace_rejection [] = none
trace_rejection (primary ∷ others) = some (record {
  rejection_code = (rejection_of primary.code).0;
  rejection_layer = (rejection_of primary.code).1;
  validator = primary.validator;
  validator_code = primary.code;
  all_issue_codes = primary.code ∷ codes_of others;
})
