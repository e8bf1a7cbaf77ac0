-- ===== src/Validators/Transition/Validate.antt =====
-- `validate` of runtime/validators/transition.py.
use deterministic_audit_runt.Validators.Transition.Tables.{Rules}
use deterministic_audit_runt.Prelude.{String, none, some, List, [], ◌∷◌, ◌++◌}
use deterministic_audit_runt.Errors.{◌>>=◌, Result, ok, err}
use deterministic_audit_runt.Projector.{build_state, CanonicalState, as_key}
use deterministic_audit_runt.Validators.Transition.Entities.{build_candidates, with_candidates}
use deterministic_audit_runt.EventStore.{LedgerFile, iter_stored_events}
use deterministic_audit_runt.Json.{Json, item, end}
use deterministic_audit_runt.Validators.Transition.Requests.{
  validate_worker_permissions, validate_transition_matrix, issue,
}
use deterministic_audit_runt.Validators.Issue.{ValidationIssue}
use deterministic_audit_runt.Validators.Transition.Guards.{validate_cross_entity_guards}

-- The projection inside the `try`.
unfoldable pub projected :
    (CanonicalState → List String) → LedgerFile → Json → Result (String × CanonicalState)
unfolding build_state
projected state_errors f event = do
  audit_id ← item "audit_id" event
  name ← as_key audit_id
  built ← (build_state state_errors (some name) f).0
  ok (name, built.state)

-- The three validations, under the state with its candidates. The ledger is read for the candidates
-- of the audit, and for the event that caused this one.
unfoldable pub check_projected :
    Rules → LedgerFile → Json → String → CanonicalState → Result (List ValidationIssue)
unfolding build_candidates with_candidates validate_worker_permissions validate_transition_matrix
    validate_cross_entity_guards
check_projected rules f event name state = do
  own ← (iter_stored_events (some name) f).0
  stored ← (iter_stored_events none f).0
  fs ← build_candidates end own
  let st = with_candidates fs state
  permissions ← validate_worker_permissions rules event
  matrix ← validate_transition_matrix rules event st
  guards ← validate_cross_entity_guards stored st event rules.guards
  ok (permissions ++ (matrix ++ guards))

-- An exception of the projection becomes an issue.
unfoldable pub validate_transition :
    (CanonicalState → List String) → Rules → LedgerFile → Json → Result (List ValidationIssue)
unfolding projected check_projected
validate_transition state_errors rules f event = elim (projected state_errors f event) [
  | err e ↦ ok (issue "state_projection_failed" none none ∷ [])
  | ok (name, state) ↦ check_projected rules f event name state
]
