-- ===== src/Examples/Rejections.antt =====
-- Concrete rejections and chains.
use deterministic_audit_runt.Prelude.{◌≡◌, ◌↔◌, none, some, [], ◌∷◌, false, ℕ, List}
use deterministic_audit_runt.Errors.{ok, err, rejection_invariant_violation}
use deterministic_audit_runt.Rejection.{
  RejectionDetail, RejectionChain, new_chain, add_rejection, schema_invalid, schema,
  enforce_rejection_invariant,
}
use deterministic_audit_runt.Rejection.Chain.{IsExplained, enforce_rejection_invariant_iff}

abbrev no_path : RejectionDetail
no_path = record {
  reason = schema_invalid;
  stage = schema;
  message = "entity_id missing";
  raw_output_excerpt = none;
  schema_path = none;
  validator_code = none;
  metadata = [];
}

abbrev chain_1 : RejectionChain
chain_1 = add_rejection no_path (new_chain "task_1" "analyzer")

abbrev first_two : List ℕ
first_two = 65 ∷ 66 ∷ []

enforce_rejection_invariant_iff_example :
    ((enforce_rejection_invariant false (some chain_1) ≡ ok tt) ↔ IsExplained false (some chain_1))
    × ((enforce_rejection_invariant false (some chain_1) ≡ err rejection_invariant_violation)
        ↔ (¬ IsExplained false (some chain_1)))
enforce_rejection_invariant_iff_example = enforce_rejection_invariant_iff false (some chain_1)
