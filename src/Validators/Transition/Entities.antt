-- ===== src/Validators/Transition/Entities.antt =====
-- Entities and their states, in runtime/validators/transition.py.
use deterministic_audit_runt.Prelude.{
  String, Bool, false, not, ◌||◌, Option, none, some, List, [], ◌∷◌, ◌==◌, if◌then◌else◌, ◌≡◌, true,
}
use deterministic_audit_runt.Errors.{◌>>=◌, key_error, type_error, Result, ok, err}
use deterministic_audit_runt.Projector.{
  CanonicalState, same_collection, collection_named, candidates, as_key,
}
use deterministic_audit_runt.RunLedger.{iterate}
use deterministic_audit_runt.Json.{
  Fields, is_falsy, Json, str, null, get_default, is_null, arr, get, item, lookup, obj, end, has,
  set_field,
}
use deterministic_audit_runt.Validators.Transition.Tables.{FieldPath}
use deterministic_audit_runt.Json.Canonical.{equals, equals_refl}
use deterministic_audit_runt.EventStore.{StoredEvent}

-- The values that the source compares with a text of its own.
abbrev pub is_text : String → Json → Bool
is_text s v = equals v (str s)

-- `value in texts`
unfoldable pub is_among : List String → Json → Bool
is_among [] v = false
is_among (s ∷ texts) v = is_text s v || is_among texts v

-- `state["candidates"] = ...`
unfoldable pub with_candidates : Fields → CanonicalState → CanonicalState
unfolding same_collection
with_candidates fs st = record st {
  entities = λ c. if same_collection candidates c then fs else st.entities c;
}

-- What one stored event adds in `_build_candidate_state`.
unfoldable pub add_candidate : Json → Fields → Result Fields
add_candidate event fs = do
  acceptance ← get_default "acceptance" (obj end) event
  status ← get "status" acceptance
  if not (is_text "accepted" status) then ok fs else do
    entity_type ← get "entity_type" event
    if not (is_text "candidate" entity_type) then ok fs else do
      candidate_id ← get "entity_id" event
      if is_null candidate_id then ok fs else do
        payload ← get_default "payload" (obj end) event
        if not (has "status" payload)
            then ok fs
            else do key ← as_key candidate_id; ok (set_field key payload fs)

unfoldable pub build_candidates : Fields → List StoredEvent → Result Fields
unfolding add_candidate
build_candidates fs [] = ok fs
build_candidates fs (stored ∷ rest) =
    add_candidate stored.event fs >>= λ more. build_candidates more rest

abbrev pub found_in : Option Json → Json
found_in none = null
found_in (some v) = v

-- `entities.get(key)`, where None stands for a missing entity. The keys of these dicts are texts.
unfoldable pub get_key : Json → Fields → Result Json
get_key (str s) fs = ok (found_in (lookup s fs))
get_key (arr xs) fs = err type_error
get_key (obj gs) fs = err type_error
get_key _ fs = ok null

-- `state[ENTITY_COLLECTIONS[entity_type]].get(entity_id)`
unfoldable pub entity_in : CanonicalState → String → Json → Result Json
unfolding collection_named get_key
entity_in st entity_type entity_id = elim (collection_named entity_type) [
  | none ↦ err (key_error entity_type)
  | some c ↦ get_key entity_id (st.entities c)
]

-- `_get_entity`: the branches for decisions and candidates read the collections of those names.
unfoldable pub get_entity : CanonicalState → String → Json → Result Json
unfolding entity_in
get_entity st entity_type entity_id =
    if not (entity_type == "audit")
    then entity_in st entity_type entity_id
    else if is_null st.audit
    then ok null
    else do id ← item "id" st.audit; ok (if equals id entity_id then st.audit else null)

-- `_current_state`
unfoldable pub current_state : CanonicalState → String → Json → Result Json
unfolding get_entity
current_state st entity_type entity_id = do
  entity ← get_entity st entity_type entity_id
  if is_null entity
      then ok (str "__absent__")
      else if entity_type == "decision"
      then ok (str "recorded")
      else item "status" entity

-- `_requested_state`
unfoldable pub requested_state : String → Json → Result Json
requested_state entity_type event =
    if entity_type == "decision"
    then ok (str "recorded")
    else (do payload ← item "payload" event; item "status" payload)

-- `_resolve_path`
unfoldable pub resolve_path : FieldPath → Json → Result Json
resolve_path [] v = ok v
resolve_path (part ∷ path) v = if is_null v then ok null else (get part v >>= resolve_path path)

-- `resolved or []`, and the loop over it.
unfoldable pub elements : Json → Result (List Json)
unfolding is_falsy iterate
elements v = if is_falsy v then ok [] else iterate v

pub is_text_of_eq : (v : Json) (s : String) → v ≡ str s → is_text s v ≡ true
is_text_of_eq v s e = rw e (equals_refl (str s))
