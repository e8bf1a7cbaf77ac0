-- ===== src/Validators/Contradiction/Existing.antt =====
-- What runtime/validators/contradiction.py finds of the entities that a contradiction names.
use deterministic_audit_runt.Prelude.{
  ◌≡◌, refl, ℕ, ◌+◌, List, [], ◌∷◌, ◌++◌, true, false, Bool, All, ◌↔◌, if◌then◌else◌, ◌∙◌,
}
use deterministic_audit_runt.Errors.{ok, >>=-eq-ok, ok_inj}
use deterministic_audit_runt.Json.{Json, item}
use deterministic_audit_runt.Projector.{CanonicalState}
use deterministic_audit_runt.Validators.Issue.{ValidationIssue}
use deterministic_audit_runt.Validators.Contradiction.{entity_exists, missing_refs}
use mathlib.Core.Path.{ap}

-- The reference names an entity of the accepted state.
abbrev pub IsExisting : CanonicalState → Json → Type 0
IsExisting st entity_ref =
    (entity_type : Json) × (entity_id : Json) × (item "entity_type" entity_ref ≡ ok entity_type)
    × (item "entity_id" entity_ref ≡ ok entity_id)
    × (entity_exists st entity_type entity_id ≡ ok true)

all_there :
    (exists : Bool) (i : ValidationIssue) (later : List ValidationIssue)
    → (if exists then later else (i ∷ []) ++ later) ≡ []
    → (exists ≡ true) × (later ≡ [])
all_there true i later h = (refl, h)
all_there false i later h = cc

module _ (st : CanonicalState) where
  missing_refs→ :
      (n : ℕ) (refs : List Json) → missing_refs st n refs ≡ ok [] → All (IsExisting st) refs
  unfolding missing_refs
  missing_refs→ n [] h = tt
  missing_refs→ n (entity_ref ∷ refs) h =
      let (entity_type, e1, h1) = >>=-eq-ok (item "entity_type" entity_ref) _ h in
      let (entity_id, e2, h2) = >>=-eq-ok (item "entity_id" entity_ref) _ h1 in
      let (exists, e3, h3) = >>=-eq-ok (entity_exists st entity_type entity_id) _ h2 in
      let (later, e4, h4) = >>=-eq-ok (missing_refs st (n + 1) refs) _ h3 in
      let (there, nothing) = all_there exists _ later (ok_inj h4) in
      (
        (entity_type, entity_id, e1, e2, e3 ∙ ap ok there),
        missing_refs→ (n + 1) refs (e4 ∙ ap ok nothing),
      )

  ←missing_refs :
      (n : ℕ) (refs : List Json) → All (IsExisting st) refs → missing_refs st n refs ≡ ok []
  unfolding missing_refs
  ←missing_refs n [] h = refl
  ←missing_refs n (entity_ref ∷ refs) ((entity_type, entity_id, e1, e2, e3), others) =
      rw (e1, e2, e3, ←missing_refs (n + 1) refs others) refl

  -- The validator of contradictions has no issue exactly when every reference that the contradiction
  -- makes names, by its type and id, an entity of the accepted state.
  pub missing_refs_iff :
      (n : ℕ) (refs : List Json) → (missing_refs st n refs ≡ ok []) ↔ All (IsExisting st) refs
  missing_refs_iff n refs = (missing_refs→ n refs, ←missing_refs n refs)
