-- ===== src/Validators/Schema/Bindings.antt =====
-- What it means for an event to pass runtime/validators/schema.py.
use deterministic_audit_runt.Prelude.{
  ◌≡◌, refl, String, List, [], ◌∷◌, ◌++◌, Bool, true, false, if◌then◌else◌,
}
use deterministic_audit_runt.Errors.{ok, >>=-eq-ok, ok_inj}
use deterministic_audit_runt.Json.{Json, item, is_obj, is_obj_of_item}
use deterministic_audit_runt.Json.Canonical.{equals}
use deterministic_audit_runt.Validators.Issue.{ValidationIssue}
use deterministic_audit_runt.Validators.Schema.{
  payload_audit_id, binding_issues, bound_after, validate_schema, schema_failures,
}

-- The payload carries the id of the entity and the id of the audit that its event carries.
pub record IsBound (event : Json) : Type 0 where
  pub payload : Json
  pub id : Json
  pub entity_id : Json
  pub entity_type : Json
  pub own_audit : Json
  pub audit_id : Json
  pub payload_eq : item "payload" event ≡ ok payload
  pub id_eq : item "id" payload ≡ ok id
  pub entity_id_eq : item "entity_id" event ≡ ok entity_id
  pub entity_type_eq : item "entity_type" event ≡ ok entity_type
  pub own_audit_eq : payload_audit_id payload entity_type ≡ ok own_audit
  pub audit_id_eq : item "audit_id" event ≡ ok audit_id
  pub entity_agrees : equals id entity_id ≡ true
  pub audit_agrees : equals own_audit audit_id ≡ true

no_issues :
    (a b : Bool) (i j : ValidationIssue)
    → ((if a then [] else i ∷ []) ++ (if b then [] else j ∷ [])) ≡ []
    → (a ≡ true) × (b ≡ true)
no_issues true true i j h = (refl, refl)
no_issues true false i j h = cc
no_issues false b i j h = cc

binding_issues-IsBound : (event : Json) → binding_issues event ≡ ok [] → IsBound event
unfolding binding_issues
binding_issues-IsBound event h =
    let (payload, e1, h1) = >>=-eq-ok (item "payload" event) _ h in
    let (id, e2, h2) = >>=-eq-ok (item "id" payload) _ h1 in
    let (entity_id, e3, h3) = >>=-eq-ok (item "entity_id" event) _ h2 in
    let (entity_type, e4, h4) = >>=-eq-ok (item "entity_type" event) _ h3 in
    let (own, e5, h5) = >>=-eq-ok (payload_audit_id payload entity_type) _ h4 in
    let (audit_id, e6, h6) = >>=-eq-ok (item "audit_id" event) _ h5 in
    let (a, b) = no_issues (equals id entity_id) (equals own audit_id) _ _ (ok_inj h6) in
    record {
      payload = payload;
      id = id;
      entity_id = entity_id;
      entity_type = entity_type;
      own_audit = own;
      audit_id = audit_id;
      payload_eq = e1;
      id_eq = e2;
      entity_id_eq = e3;
      entity_type_eq = e4;
      own_audit_eq = e5;
      audit_id_eq = e6;
      entity_agrees = a;
      audit_agrees = b;
    }

bound_after-IsBound :
    (paths : List (List String)) (event : Json)
    → bound_after paths event ≡ ok []
    → (paths ≡ []) × IsBound event
unfolding bound_after schema_failures
bound_after-IsBound [] event h = (refl, binding_issues-IsBound event h)
bound_after-IsBound (path ∷ paths) event h = cc

-- An event without an issue of the schema validator has no schema errors, its payload has the id of
-- its entity, and the audit that the payload names, which for an audit is the payload itself, is the
-- audit of the event.
pub validate_schema-IsBound :
    (error_paths : Json → List (List String)) (event : Json)
    → validate_schema error_paths event ≡ ok []
    → (error_paths event ≡ []) × IsBound event
unfolding validate_schema
validate_schema-IsBound error_paths event h = bound_after-IsBound (error_paths event) event h

pub is_obj_of_IsBound : (event : Json) → IsBound event → is_obj event ≡ true
is_obj_of_IsBound event b = is_obj_of_item "payload" event b.payload_eq
