-- ===== src/Validators/Transition/Guards.antt =====
-- `_validate_cross_entity_guards` of runtime/validators/transition.py.
use deterministic_audit_runt.Validators.Transition.Tables.{Scope, FieldPath, Guard}
use deterministic_audit_runt.Prelude.{
  ℕ, ◌+◌, String, Bool, true, false, not, ◌&&◌, Option, none, some, List, [], ◌∷◌, ◌++◌, ◌==◌,
  if◌then◌else◌,
}
use deterministic_audit_runt.Errors.{◌>>=◌, Result, ok}
use deterministic_audit_runt.EventStore.{StoredEvent, get_from}
use deterministic_audit_runt.Json.{Json, item, get, is_null, get_default, obj, end}
use deterministic_audit_runt.Validators.Transition.Entities.{
  resolve_path, entity_in, get_entity, elements, is_among, is_text,
}
use deterministic_audit_runt.Projector.{CanonicalState, as_key}
use deterministic_audit_runt.Validators.Issue.{ValidationIssue, at_index, at}
use deterministic_audit_runt.Validators.Transition.Requests.{issue}
use deterministic_audit_runt.Json.Canonical.{equals}

-- `_guard_matches_event`
unfoldable pub guard_matches_event : Scope → Json → Result Bool
guard_matches_event scope event = do
  entity_type ← item "entity_type" event
  if not (is_text scope.entity_type entity_type)
      then ok false
      else if scope.event_type == "*"
      then ok true
      else (do event_type ← item "event_type" event; ok (is_text scope.event_type event_type))

-- What is wrong with a referenced entity that is there.
unfoldable pub no_complaint : Json → Result (Option String)
no_complaint entity = ok none

unfoldable pub state_complaint : String → Json → Result (Option String)
state_complaint required entity = do
  status ← get "status" entity
  ok (if is_text required status then none else some "referenced_entity_wrong_state")

unfoldable pub field_complaint : FieldPath → List String → Json → Result (Option String)
unfolding resolve_path is_among
field_complaint path allowed entity = do
  value ← resolve_path path entity
  ok (if is_among allowed value then none else some "referenced_entity_field_forbidden")

-- The answer for one reference: None means that the entity is missing.
unfoldable pub complaint_at : (Json → Result (Option String)) → Json → Result (Option String)
complaint_at complaint entity =
    if is_null entity then ok (some "referenced_entity_missing") else complaint entity

abbrev pub report : String → FieldPath → ℕ → Option String → List ValidationIssue
report rule_id path n none = []
report rule_id path n (some code) = issue code (some rule_id) (some (at_index path n)) ∷ []

-- The loop over the referenced ids of the three guards on references.
unfoldable pub reference_issues :
    CanonicalState
    → String
    → String
    → FieldPath
    → (Json → Result (Option String))
    → ℕ
    → List Json
    → Result (List ValidationIssue)
unfolding get_entity complaint_at
reference_issues st rule_id referenced path complaint n [] = ok []
reference_issues st rule_id referenced path complaint n (id ∷ ids) = do
  entity ← get_entity st referenced id
  code ← complaint_at complaint entity
  rest ← reference_issues st rule_id referenced path complaint (n + 1) ids
  ok (report rule_id path n code ++ rest)

unfoldable pub reference_guard :
    CanonicalState
    → Json
    → String
    → Scope
    → FieldPath
    → String
    → (Json → Result (Option String))
    → Result (List ValidationIssue)
unfolding guard_matches_event resolve_path elements reference_issues
reference_guard st event rule_id scope path referenced complaint = do
  matches ← guard_matches_event scope event
  if not matches then ok [] else do
    referenced_ids ← resolve_path path event
    ids ← elements referenced_ids
    reference_issues st rule_id referenced path complaint 0 ids

unfoldable pub dependency_guard :
    Json → String → Scope → FieldPath → FieldPath → Result (List ValidationIssue)
unfolding guard_matches_event resolve_path
dependency_guard event rule_id scope when requires = do
  matches ← guard_matches_event scope event
  if not matches then ok [] else do
    when_value ← resolve_path when event
    required_value ← resolve_path requires event
    ok (
        if not (is_null when_value) && is_null required_value
        then issue "field_dependency_failed" (some rule_id) (some (at requires)) ∷ []
        else [])

unfoldable pub promotion_guard :
    List StoredEvent → Json → String → String → String → Result (List ValidationIssue)
unfolding get_from
promotion_guard stored event rule_id source target = do
  entity_type ← item "entity_type" event
  if not (is_text target entity_type) then ok [] else do
    caused_by ← get "caused_by_event_id" event
    if is_null caused_by then ok [] else do
      id ← as_key caused_by
      cause ← get_from id stored
      elim cause [
        | none ↦ ok []
        | some e ↦ do
          cause_type ← item "entity_type" e
          ok (
              if is_text source cause_type
              then issue "forbidden_entity_promotion" (some rule_id)
                  (some (at ("caused_by_event_id" ∷ [])))
                ∷ []
              else [])
      ]

abbrev promotion_issue : String → String → FieldPath → List ValidationIssue
promotion_issue rule_id code path = issue code (some rule_id) (some (at path)) ∷ []

abbrev observation_path : FieldPath
observation_path = "payload" ∷ "promoted_observation_id" ∷ []

unfoldable pub promotion_path_guard : CanonicalState → Json → String → Result (List ValidationIssue)
unfolding entity_in
promotion_path_guard st event rule_id = do
  entity_type ← item "entity_type" event
  if not (is_text "candidate" entity_type) then ok [] else do
    event_type ← item "event_type" event
    if not (is_text "candidate.promoted_to_observation" event_type) then ok [] else do
      payload ← get_default "payload" (obj end) event
      candidate_id ← get "entity_id" event
      promoted ← get "promoted_observation_id" payload
      if is_null promoted
          then ok (promotion_issue rule_id "promotion_missing_observation_id" observation_path)
          else do
            candidate ← entity_in st "candidate" candidate_id
            if is_null candidate
                then ok (promotion_issue rule_id "promotion_candidate_not_found" ("entity_id" ∷ []))
                else do
                  observation ← entity_in st "observation" promoted
                  if is_null observation
                      then ok (
                          promotion_issue rule_id "promotion_observation_not_found"
                            observation_path)
                      else do
                        provenance ← get_default "provenance" (obj end) observation
                        candidate_ref ← get "candidate_ref" provenance
                        ok (
                            if equals candidate_ref candidate_id
                            then []
                            else promotion_issue rule_id "promotion_observation_link_mismatch"
                                observation_path)

unfoldable pub guard_issues :
    List StoredEvent → CanonicalState → Json → Guard → Result (List ValidationIssue)
unfolding reference_guard no_complaint state_complaint field_complaint dependency_guard
    promotion_guard promotion_path_guard
guard_issues stored st event g =
    if g.guard_kind == "referenced_entities_exist"
    then on_references g no_complaint
    else if g.guard_kind == "referenced_entities_in_state"
    then on_references g (state_complaint g.required_state)
    else if g.guard_kind == "referenced_entities_field_in_set"
    then on_references g (field_complaint g.referenced_field_path g.allowed_values)
    else if g.guard_kind == "field_dependency"
    then dependency_guard event g.rule_id g.scope g.when_field g.requires_field
    else if g.guard_kind == "forbidden_entity_promotion"
    then promotion_guard stored event g.rule_id g.source_entity_type g.target_entity_type
    else if g.guard_kind == "candidate_promotion_path_valid"
    then promotion_path_guard st event g.rule_id
    else ok []
  where
    on_references : Guard → (Json → Result (Option String)) → Result (List ValidationIssue)
    on_references guard complaint =
        reference_guard st event guard.rule_id guard.scope guard.field_path
          guard.referenced_entity_type complaint

unfoldable pub validate_cross_entity_guards :
    List StoredEvent → CanonicalState → Json → List Guard → Result (List ValidationIssue)
unfolding guard_issues
validate_cross_entity_guards stored st event [] = ok []
validate_cross_entity_guards stored st event (guard ∷ guards) = do
  here ← guard_issues stored st event guard
  rest ← validate_cross_entity_guards stored st event guards
  ok (here ++ rest)
