-- ===== src/Validators/Transition/Requests.antt =====
-- `_validate_worker_permissions` and `_validate_transition_matrix` of
-- runtime/validators/transition.py.
use deterministic_audit_runt.Validators.Transition.Tables.{
  Rules, EntityRules, ForbiddenRule, AllowedRule,
}
use deterministic_audit_runt.Prelude.{
  String, Bool, not, ◌&&◌, ◌||◌, Option, none, some, List, [], ◌∷◌, ◌==◌, if◌then◌else◌, first,
}
use deterministic_audit_runt.Errors.{◌>>=◌, key_error, type_error, Result, ok, err}
use deterministic_audit_runt.Validators.Transition.Entities.{
  current_state, is_among, requested_state, is_text,
}
use deterministic_audit_runt.Validators.Issue.{IssuePath, IssuePath, ValidationIssue, at}
use deterministic_audit_runt.Json.{Json, str, arr, item, obj, get, is_null}
use deterministic_audit_runt.Projector.{CanonicalState, as_key}

abbrev pub issue : String → Option String → Option IssuePath → ValidationIssue
issue code rule_id path = record {
  validator = "transition";
  code = code;
  rule_id = rule_id;
  path = path;
}

-- `permissions.get(role)`
unfoldable pub permissions_of : Rules → Json → Result (Option (List String))
permissions_of rules (str role) = ok (rules.permissions role)
permissions_of rules (arr xs) = err type_error
permissions_of rules (obj fs) = err type_error
permissions_of rules _ = ok none

unfoldable pub listing_issues : Option (List String) → Json → List ValidationIssue
unfolding is_among
listing_issues none event_type =
    issue "worker_event_forbidden" none (some (at ("event_type" ∷ []))) ∷ []
listing_issues (some types) event_type =
    if is_among types event_type
    then []
    else issue "worker_event_forbidden" none (some (at ("event_type" ∷ []))) ∷ []

-- The part for a worker.
unfoldable pub role_issues : Rules → Json → Json → Result (List ValidationIssue)
unfolding permissions_of listing_issues
role_issues rules event actor = do
  role ← get "role" actor
  if is_null role
      then ok (issue "missing_worker_role" none (some (at ("actor" ∷ "role" ∷ []))) ∷ [])
      else do
        allowed ← permissions_of rules role
        event_type ← item "event_type" event
        ok (listing_issues allowed event_type)

unfoldable pub validate_worker_permissions : Rules → Json → Result (List ValidationIssue)
unfolding role_issues
validate_worker_permissions rules event = do
  actor ← item "actor" event
  actor_type ← item "actor_type" actor
  if not (is_text "worker" actor_type) then ok [] else role_issues rules event actor

unfoldable pub is_allowed_by : Json → Json → Json → AllowedRule → Bool
unfolding is_among
is_allowed_by current requested event_type rule =
    is_text rule.from current
    && (is_text rule.to requested && is_among rule.via_event_types event_type)

-- `_find_allowed_rule`
unfoldable pub find_allowed_rule : Json → Json → Json → List AllowedRule → Option AllowedRule
unfolding is_allowed_by first
find_allowed_rule current requested event_type = first (is_allowed_by current requested event_type)

unfoldable pub is_forbidden_by : Json → Json → ForbiddenRule → Bool
is_forbidden_by current requested rule =
    is_text rule.from current && (rule.to == "*" || is_text rule.to requested)

-- `_find_forbidden_rule`
unfoldable pub find_forbidden_rule : Json → Json → List ForbiddenRule → Option ForbiddenRule
unfolding is_forbidden_by first
find_forbidden_rule current requested = first (is_forbidden_by current requested)

-- The issue names the status that was asked for, save for a decision, which has none.
unfoldable pub status_path : String → Option IssuePath
status_path entity_type =
    if entity_type == "decision" then none else some (at ("payload" ∷ "status" ∷ []))

-- The answer to a change of state, from the first rule that allows it and the first that forbids it.
unfoldable pub verdict :
    Option IssuePath → Option AllowedRule → Option ForbiddenRule → List ValidationIssue
verdict path (some rule) forbidding = []
verdict path none (some rule) = issue "invalid_transition" (some rule.rule_id) path ∷ []
verdict path none none = issue "invalid_transition" none path ∷ []

unfoldable pub matrix_issues : EntityRules → String → Json → Json → Json → List ValidationIssue
unfolding find_allowed_rule find_forbidden_rule verdict status_path
matrix_issues rules entity_type current requested event_type =
    verdict (status_path entity_type)
      (find_allowed_rule current requested event_type rules.allowed_transitions)
      (find_forbidden_rule current requested rules.forbidden_transitions)

abbrev pub rules_of : Rules → String → Result EntityRules
rules_of rules t = elim (rules.entities t) [ none ↦ err (key_error t) | some r ↦ ok r ]

unfoldable pub validate_transition_matrix :
    Rules → Json → CanonicalState → Result (List ValidationIssue)
unfolding current_state requested_state matrix_issues
validate_transition_matrix rules event st = do
  entity_type ← item "entity_type" event
  name ← as_key entity_type
  entity_rules ← rules_of rules name
  entity_id ← item "entity_id" event
  current ← current_state st name entity_id
  requested ← requested_state name event
  event_type ← item "event_type" event
  ok (matrix_issues entity_rules name current requested event_type)
