-- ===== src/Examples/Rules.antt =====
-- The validators on concrete rules and events.
use deterministic_audit_runt.Prelude.{ℕ, Bool, false, ◌⊎◌, List}
use deterministic_audit_runt.Prelude.{◌≡◌, ◌↔◌, refl, none, some, [], ◌∷◌, ◌==◌, if◌then◌else◌, All}
use deterministic_audit_runt.Errors.{ok}
use deterministic_audit_runt.Examples.Data.{event_1, stored_1, text_field, no_secrets}
use deterministic_audit_runt.Validators.Transition.{
  Rules, validate_worker_permissions, EntityRules, state_complaint, Scope, reference_guard,
  guard_matches_event,
}
use deterministic_audit_runt.Projector.{CanonicalState}
use deterministic_audit_runt.Json.{null, str, field, obj, end, item, get, Json, int, arr, cons, nil}
use deterministic_audit_runt.Validators.Transition.Permissions.{
  IsPermitted, validate_worker_permissions_iff,
}
use deterministic_audit_runt.Validators.Transition.References.{
  IsAccepted, Names, reference_guard_iff,
}
use deterministic_audit_runt.Json.Canonical.{equals}
use deterministic_audit_runt.Prelude.Int.{pos}
use deterministic_audit_runt.Validators.SourceBinding.Ranges.{
  HasOrderedRange, validate_source_refs-HasOrderedRange,
}
use deterministic_audit_runt.Validators.Duplicate.Fresh.{
  IsOther, KeepsKeys, validate_duplicate-find_from,
}
use deterministic_audit_runt.Validators.SourceBinding.{validate_source_refs}
use deterministic_audit_runt.Validators.Duplicate.{validate_duplicate}
use deterministic_audit_runt.EventStore.{find_from}
use deterministic_audit_runt.Redaction.{redact_event}

-- A task may be opened by the event that creates it, and nothing may be done to a closed one.
abbrev pub task_rules : EntityRules
task_rules = record {
  allowed_transitions =
      record {
        rule_id = "T1";
        from = "__absent__";
        to = "open";
        via_event_types = "task.created" ∷ [];
      }
      ∷ [];
  forbidden_transitions = record { rule_id = "F1"; from = "closed"; to = "*" } ∷ [];
}

-- An audit may be opened by the event that creates it.
abbrev pub audit_rules : EntityRules
audit_rules = record {
  allowed_transitions =
      record {
        rule_id = "A1";
        from = "__absent__";
        to = "active";
        via_event_types = "audit.created" ∷ [];
      }
      ∷ [];
  forbidden_transitions = [];
}

abbrev pub rules_1 : Rules
rules_1 = record {
  permissions = λ role. if role == "analyzer" then some ("task.created" ∷ []) else none;
  entities =
      λ t. if t == "task" then some task_rules else if t == "audit" then some audit_rules else none;
  guards = [];
}

validate_worker_permissions_iff_example :
    (validate_worker_permissions rules_1 event_1 ≡ ok []) ↔ IsPermitted rules_1 event_1
validate_worker_permissions_iff_example = validate_worker_permissions_iff rules_1 event_1

abbrev state_1 : CanonicalState
state_1 = record {
  audit = null;
  entities = λ c. field "task_1" (obj (text_field "status" "open" end)) end;
}

abbrev task_scope : Scope
task_scope = record { entity_type = "task"; event_type = "*" }

abbrev event_of_task : Json
event_of_task = obj (
    text_field "event_type" "task.updated" (
      text_field "entity_type" "task"
        (field "payload" (obj (field "task_ids" (arr (cons (str "task_1") nil)) end)) end)))

reference_guard_iff_example :
    (reference_guard state_1 event_of_task "G1" task_scope
        ("payload" ∷ "task_ids" ∷ [])
        "task"
        (state_complaint "open")
      ≡ ok [])
    ↔ ((guard_matches_event task_scope event_of_task ≡ ok false)
        ⊎ ((ids : List Json) × Names state_1 "G1" "task"
              ("payload" ∷ "task_ids" ∷ [])
              (state_complaint "open")
              event_of_task
              task_scope
              ids
            × All (IsAccepted state_1 "task" (state_complaint "open")) ids))
reference_guard_iff_example =
    reference_guard_iff state_1 "G1" "task" ("payload" ∷ "task_ids" ∷ []) (state_complaint "open")
      event_of_task task_scope

-- Another event than the stored one.
abbrev event_2 : Json
event_2 = obj (
    text_field "id" "event_2" (
      text_field "audit_id" "audit_1"
        (text_field "idempotency_key" "key_2" (text_field "event_type" "task.updated" end))))

abbrev equal_never : Json → Json → Bool
equal_never a b = false

not_duplicate : validate_duplicate (λ event. event) equal_never event_2 (stored_1 ∷ []) ≡ ok []
unfolding validate_duplicate item equals
not_duplicate = refl

keys_2 : KeepsKeys no_secrets event_2
unfolding redact_event item
keys_2 = record { same_id = refl; same_audit = refl; same_idempotency_key = refl }

validate_duplicate-find_from_example :
    All (λ s. IsOther s.event event_2) (stored_1 ∷ [])
    × ((n : ℕ) × (find_from (redact_event no_secrets event_2) 0 (stored_1 ∷ []) ≡ ok (none, n)))
validate_duplicate-find_from_example =
    validate_duplicate-find_from (λ event. event) equal_never no_secrets event_2 (stored_1 ∷ []) 0
      keys_2 not_duplicate

abbrev task_ref : Json
task_ref = obj (text_field "entity_type" "task" (text_field "entity_id" "task_1" end))

-- Lines 3 to 5 of some file.
abbrev source_ref : Json
source_ref =
    obj (field "line_range" (obj (field "start" (int (pos 3)) (field "end" (int (pos 5)) end))) end)

no_source_issues : validate_source_refs event_1 0 (source_ref ∷ []) ≡ ok []
unfolding validate_source_refs item get
no_source_issues = refl

validate_source_refs-HasOrderedRange_example : All HasOrderedRange (source_ref ∷ [])
validate_source_refs-HasOrderedRange_example =
    validate_source_refs-HasOrderedRange event_1 0 (source_ref ∷ []) no_source_issues
