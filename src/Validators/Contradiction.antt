-- ===== src/Validators/Contradiction.antt =====
-- runtime/validators/contradiction.py: the entities that a contradiction names.
pub mod Existing
use deterministic_audit_runt.Prelude.{
  ℕ, ◌+◌, Bool, false, not, Option, none, some, List, [], ◌∷◌, ◌++◌, String, ◌==◌, if◌then◌else◌,
}
use deterministic_audit_runt.Errors.{Result, ok, err, ◌>>=◌, type_error}
use deterministic_audit_runt.Json.{Json, str, arr, obj, end, item, has, is_null}
use deterministic_audit_runt.Json.Canonical.{equals}
use deterministic_audit_runt.EventStore.{LedgerFile}
use deterministic_audit_runt.Projector.{CanonicalState, Collection, collection_named, hypotheses}
use deterministic_audit_runt.Validators.Issue.{ValidationIssue, IssuePath, at_index}
use deterministic_audit_runt.Validators.Transition.{is_text, projected}
use deterministic_audit_runt.Validators.SourceBinding.{enumerated}

abbrev contradiction_issue : String → Option IssuePath → List ValidationIssue
contradiction_issue code path =
    record { validator = "contradiction"; code = code; rule_id = none; path = path } ∷ []

-- `f"{entity_type}s"`, which meets the name of a collection also for "hypothese".
unfoldable pub plural_of : Json → Option Collection
unfolding collection_named
plural_of (str t) = if t == "hypothese" then some hypotheses else collection_named t
plural_of _ = none

-- `entity_id in entities`, which hashes the id.
unfoldable pub has_entity : Json → Json → Result Bool
has_entity (str id) entities = ok (has id entities)
has_entity (arr xs) entities = err type_error
has_entity (obj fs) entities = err type_error
has_entity _ entities = ok false

abbrev has_entity_in : CanonicalState → Json → Option Collection → Result Bool
has_entity_in st entity_id none = has_entity entity_id (obj end)
has_entity_in st entity_id (some c) = has_entity entity_id (obj (st.entities c))

-- `_entity_exists`
unfoldable pub entity_exists : CanonicalState → Json → Json → Result Bool
unfolding plural_of has_entity
entity_exists st entity_type entity_id =
    if not (is_text "audit" entity_type)
    then has_entity_in st entity_id (plural_of entity_type)
    else if is_null st.audit
    then ok false
    else (do id ← item "id" st.audit; ok (equals id entity_id))

unfoldable pub missing_refs : CanonicalState → ℕ → List Json → Result (List ValidationIssue)
unfolding entity_exists
missing_refs st n [] = ok []
missing_refs st n (entity_ref ∷ rest) = do
  entity_type ← item "entity_type" entity_ref
  entity_id ← item "entity_id" entity_ref
  exists ← entity_exists st entity_type entity_id
  later ← missing_refs st (n + 1) rest
  ok (
      if exists
      then later
      else contradiction_issue "contradiction_reference_missing"
          (some (at_index ("payload" ∷ "conflicting_entity_refs" ∷ []) n))
        ++ later)

unfoldable pub check_refs : CanonicalState → Json → Result (List ValidationIssue)
unfolding missing_refs enumerated
check_refs st event = do
  payload ← item "payload" event
  conflicting ← item "conflicting_entity_refs" payload
  refs ← enumerated conflicting
  missing_refs st 0 refs

-- An exception of the projection becomes an issue.
unfoldable pub checked_refs :
    Json → Result (String × CanonicalState) → Result (List ValidationIssue)
unfolding check_refs
checked_refs event (err e) = ok (contradiction_issue "state_projection_failed" none)
checked_refs event (ok (name, st)) = check_refs st event

unfoldable pub validate_contradiction :
    (CanonicalState → List String) → LedgerFile → Json → Result (List ValidationIssue)
unfolding projected checked_refs
validate_contradiction state_errors f event = do
  event_type ← item "event_type" event
  if is_text "contradiction.registered" event_type
      then checked_refs event (projected state_errors f event)
      else ok []
