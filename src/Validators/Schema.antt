-- ===== src/Validators/Schema.antt =====
-- `validate` of runtime/validators/schema.py. The validator of the package jsonschema is the
-- parameter `error_paths`: the paths of its errors, in the order in which the source sorts them.
pub mod Bindings
use deterministic_audit_runt.Prelude.{
  Option, none, some, List, [], ◌∷◌, ◌++◌, String, if◌then◌else◌,
}
use deterministic_audit_runt.Errors.{Result, ok, ◌>>=◌}
use deterministic_audit_runt.Json.{Json, item, get}
use deterministic_audit_runt.Json.Canonical.{equals}
use deterministic_audit_runt.Validators.Issue.{ValidationIssue, IssuePath, at}
use deterministic_audit_runt.Validators.Transition.{is_text}

abbrev schema_issue : String → Option IssuePath → ValidationIssue
schema_issue code path = record { validator = "schema"; code = code; rule_id = none; path = path }

abbrev path_or_none : List String → Option IssuePath
path_or_none [] = none
path_or_none (part ∷ parts) = some (at (part ∷ parts))

unfoldable pub schema_failures : List (List String) → List ValidationIssue
schema_failures [] = []
schema_failures (path ∷ paths) =
    schema_issue "schema_validation_failed" (path_or_none path) ∷ schema_failures paths

-- The two texts that name the audit: the payload of an audit is the audit itself.
unfoldable pub payload_audit_id : Json → Json → Result Json
payload_audit_id payload entity_type =
    if is_text "audit" entity_type then item "id" payload else get "audit_id" payload

unfoldable pub binding_issues : Json → Result (List ValidationIssue)
unfolding payload_audit_id
binding_issues event = do
  payload ← item "payload" event
  id ← item "id" payload
  entity_id ← item "entity_id" event
  entity_type ← item "entity_type" event
  own ← payload_audit_id payload entity_type
  audit_id ← item "audit_id" event
  let audit_path = if is_text "audit" entity_type then "id" else "audit_id"
  let entity_issues =
      if equals id entity_id
      then []
      else schema_issue "payload_entity_id_mismatch" (some (at ("payload" ∷ "id" ∷ []))) ∷ []
  let audit_issues =
      if equals own audit_id
      then []
      else schema_issue "payload_audit_id_mismatch" (some (at ("payload" ∷ audit_path ∷ []))) ∷ []
  ok (entity_issues ++ audit_issues)

-- The bindings are looked at only in an event without errors.
unfoldable pub bound_after : List (List String) → Json → Result (List ValidationIssue)
unfolding schema_failures binding_issues
bound_after [] event = binding_issues event
bound_after (path ∷ paths) event = ok (schema_failures (path ∷ paths))

unfoldable pub validate_schema : (Json → List (List String)) → Json → Result (List ValidationIssue)
unfolding bound_after
validate_schema error_paths event = bound_after (error_paths event) event
