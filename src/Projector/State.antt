-- ===== src/Projector/State.antt =====
-- The canonical state of runtime/projector.py: the audit, and a dict of entities for each name in
-- ENTITY_COLLECTIONS.
use deterministic_audit_runt.Prelude.{
  String, ◌≡◌, refl, Bool, true, false, ◌&&◌, Option, none, some, arith, ◌==◌, eq_iff,
  if◌then◌else◌,
}
use deterministic_audit_runt.Json.{Json, null, lookup, Fields, set_field, end, lookup-set_field}

pub data Collection : Type 0 where
  tasks observations hypotheses issues questions contradictions decisions candidates : Collection

-- The keys of ENTITY_COLLECTIONS.
unfoldable pub entity_name : Collection → String
entity_name tasks = "task"
entity_name observations = "observation"
entity_name hypotheses = "hypothesis"
entity_name issues = "issue"
entity_name questions = "question"
entity_name contradictions = "contradiction"
entity_name decisions = "decision"
entity_name candidates = "candidate"

-- `ENTITY_COLLECTIONS.get(entity_type)`
unfoldable pub collection_named : String → Option Collection
collection_named t =
    if t == "task"
    then some tasks
    else if t == "observation"
    then some observations
    else if t == "hypothesis"
    then some hypotheses
    else if t == "issue"
    then some issues
    else if t == "question"
    then some questions
    else if t == "contradiction"
    then some contradictions
    else if t == "decision"
    then some decisions
    else if t == "candidate"
    then some candidates
    else none

pub record CanonicalState : Type 0 where
  pub audit : Json
  pub entities : Collection → Fields

unfoldable pub empty_state : CanonicalState
empty_state = record { audit = null; entities = λ c. end }

unfoldable pub same_collection : Collection → Collection → Bool
same_collection tasks tasks = true
same_collection observations observations = true
same_collection hypotheses hypotheses = true
same_collection issues issues = true
same_collection questions questions = true
same_collection contradictions contradictions = true
same_collection decisions decisions = true
same_collection candidates candidates = true
same_collection _ _ = false

-- `state[collection_name][entity_id] = payload`
unfoldable pub put : Collection → String → Json → CanonicalState → CanonicalState
unfolding same_collection
put d k v st = record st {
  entities = λ c. if same_collection d c then set_field k v (st.entities c) else st.entities c;
}

pub lookup-put :
    (d c : Collection) (k j : String) (v : Json) (st : CanonicalState)
    → lookup j ((put d k v st).entities c)
      ≡ (if same_collection d c && k == j then some v else lookup j (st.entities c))
unfolding put
lookup-put d c k j v st = ground (arith, lookup-set_field k j v (st.entities c))

pub audit-put :
    (d : Collection) (k : String) (v : Json) (st : CanonicalState) → (put d k v st).audit ≡ st.audit
unfolding put
audit-put d k v st = refl

-- A collection is found by the name of its entities, and by no other name.
pub collection_named_inv :
    (t : String) (c : Collection) → collection_named t ≡ some c → t ≡ entity_name c
unfolding collection_named entity_name
collection_named_inv t tasks h = ground (arith, eq_iff t "task")
collection_named_inv t observations h = ground (arith, eq_iff t "observation")
collection_named_inv t hypotheses h = ground (arith, eq_iff t "hypothesis")
collection_named_inv t issues h = ground (arith, eq_iff t "issue")
collection_named_inv t questions h = ground (arith, eq_iff t "question")
collection_named_inv t contradictions h = ground (arith, eq_iff t "contradiction")
collection_named_inv t decisions h = ground (arith, eq_iff t "decision")
collection_named_inv t candidates h = ground (arith, eq_iff t "candidate")

pub entity_name-eq : (d c : Collection) → (entity_name d == entity_name c) ≡ same_collection d c
unfolding entity_name same_collection
entity_name-eq tasks tasks = refl
entity_name-eq observations observations = refl
entity_name-eq hypotheses hypotheses = refl
entity_name-eq issues issues = refl
entity_name-eq questions questions = refl
entity_name-eq contradictions contradictions = refl
entity_name-eq decisions decisions = refl
entity_name-eq candidates candidates = refl
entity_name-eq _ _ = refl

pub audit_is_no_collection : (c : Collection) → ("audit" == entity_name c) ≡ false
unfolding entity_name
audit_is_no_collection tasks = refl
audit_is_no_collection _ = refl
