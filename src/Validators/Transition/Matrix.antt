-- ===== src/Validators/Transition/Matrix.antt =====
-- The transition matrix of runtime/validators/transition.py against the rules as a relation.
use deterministic_audit_runt.Prelude.{◌≡◌, ◌⊎◌, true, none, some, List, [], ◌∷◌, Option}
use mathlib.Core.List.{Memᴰ}
use deterministic_audit_runt.Validators.Transition.Tables.{AllowedRule, ForbiddenRule, EntityRules}
use deterministic_audit_runt.Json.{Json, str}
use deterministic_audit_runt.Validators.Transition.Requests.{issue}
use deterministic_audit_runt.Validators.Transition.Entities.{is_among}
use deterministic_audit_runt.Validators.Issue.{ValidationIssue, IssuePath}

-- Some rule allows the change of state by the type of event.
abbrev pub IsAllowed : List AllowedRule → Json → Json → Json → Type 0
IsAllowed rules current requested event_type =
    (rule : AllowedRule) × Memᴰ rule rules
    × (current ≡ str rule.from)
    × (requested ≡ str rule.to)
    × (is_among rule.via_event_types event_type ≡ true)

-- Some rule names the change of state, or every change out of the state, as forbidden.
abbrev pub IsForbidden : List ForbiddenRule → Json → Json → Type 0
IsForbidden rules current requested =
    (rule : ForbiddenRule) × Memᴰ rule rules
    × (current ≡ str rule.from)
    × ((rule.to ≡ "*") ⊎ (requested ≡ str rule.to))

-- What the validator reports of a change of state.
pub data Verdict (rules : EntityRules) (current requested event_type : Json)
    (issues : List ValidationIssue) : Type 0 where
  passes :
      IsAllowed rules.allowed_transitions current requested event_type
      → issues ≡ []
      → Verdict rules current requested event_type issues
  forbidden :
      (rule : ForbiddenRule) (path : Option IssuePath)
      → ¬ IsAllowed rules.allowed_transitions current requested event_type
      → Memᴰ rule rules.forbidden_transitions
      → IsForbidden rules.forbidden_transitions current requested
      → issues ≡ issue "invalid_transition" (some rule.rule_id) path ∷ []
      → Verdict rules current requested event_type issues
  unlisted :
      (path : Option IssuePath)
      → ¬ IsAllowed rules.allowed_transitions current requested event_type
      → ¬ IsForbidden rules.forbidden_transitions current requested
      → issues ≡ issue "invalid_transition" none path ∷ []
      → Verdict rules current requested event_type issues
