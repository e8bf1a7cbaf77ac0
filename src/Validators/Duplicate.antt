-- ===== src/Validators/Duplicate.antt =====
-- runtime/validators/duplicate.py: the comparison with every stored event. `build_event_fingerprint`
-- and `semantic_equivalent` of runtime/canonicalization.py are the parameters `fingerprint` and
-- `equivalent`.
pub mod Fresh
use deterministic_audit_runt.Prelude.{
  Bool, false, not, ◌&&◌, ◌||◌, none, some, List, [], ◌∷◌, String, if◌then◌else◌,
}
use deterministic_audit_runt.Errors.{Result, ok, ◌>>=◌}
use deterministic_audit_runt.Json.{Json, item}
use deterministic_audit_runt.Json.Canonical.{equals, same}
use deterministic_audit_runt.EventStore.{StoredEvent, serialize_event, same_key}
use deterministic_audit_runt.Validators.Issue.{ValidationIssue, at}

abbrev duplicate_issue : String → String → List ValidationIssue
duplicate_issue code field =
    record { validator = "duplicate"; code = code; rule_id = none; path = some (at (field ∷ [])) }
    ∷ []

module _ (fingerprint : Json → Json) (equivalent : Json → Json → Bool) where
  unfoldable pub is_same_content : Json → Json → Bool
  is_same_content existing event =
      same (serialize_event existing) (serialize_event event) || equivalent existing event

  -- The second test of the loop, which stops at the first part that is false.
  unfoldable pub is_equivalent_in_audit : Json → Json → Result Bool
  is_equivalent_in_audit existing event = do
    audit ← item "audit_id" existing
    event_audit ← item "audit_id" event
    if not (equals audit event_audit) then ok false else do
      type ← item "event_type" existing
      event_type ← item "event_type" event
      ok (equals type event_type && equals (fingerprint existing) (fingerprint event))

  -- What one stored event says: the loop goes on where the list is empty.
  unfoldable pub compare_with : Json → Json → Result (List ValidationIssue)
  unfolding is_same_content is_equivalent_in_audit same_key
  compare_with existing event = do
    id ← item "id" existing
    event_id ← item "id" event
    let content = is_same_content existing event
    if equals id event_id
        then ok (
            if content
            then duplicate_issue "duplicate_submission" "id"
            else duplicate_issue "event_id_conflict" "id")
        else do
          equivalent_event ← is_equivalent_in_audit existing event
          if equivalent_event then ok (duplicate_issue "duplicate_submission" "payload") else do
            matched ← same_key existing event
            ok (
                if not matched
                then []
                else if content
                then duplicate_issue "duplicate_submission" "idempotency_key"
                else duplicate_issue "idempotency_conflict" "idempotency_key")

  abbrev first_issues :
      List ValidationIssue → Result (List ValidationIssue) → Result (List ValidationIssue)
  first_issues [] later = later
  first_issues (issue ∷ issues) later = ok (issue ∷ issues)

  unfoldable pub validate_duplicate : Json → List StoredEvent → Result (List ValidationIssue)
  unfolding compare_with
  validate_duplicate event [] = ok []
  validate_duplicate event (stored ∷ rest) =
      compare_with stored.event event >>= λ here. first_issues here (validate_duplicate event rest)
