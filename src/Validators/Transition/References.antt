-- ===== src/Validators/Transition/References.antt =====
-- The guards on references in `_validate_cross_entity_guards` of runtime/validators/transition.py.
use deterministic_audit_runt.Prelude.{
  ◌≡◌, ◌≢◌, refl, ℕ, ◌+◌, String, List, [], ◌∷◌, ◌++◌, none, some, false, Option, All, Bool-cases,
  inl, inr, ◌↔◌, ◌∙◌, ◌⊎◌, true,
}
use deterministic_audit_runt.Errors.{Result, ok, >>=-eq-ok, ok_inj}
use deterministic_audit_runt.Json.{Json, is_null}
use deterministic_audit_runt.Projector.{CanonicalState}
use deterministic_audit_runt.Validators.Issue.{ValidationIssue}
use deterministic_audit_runt.Validators.Transition.Tables.{FieldPath, Scope}
use deterministic_audit_runt.Validators.Transition.Entities.{get_entity, resolve_path, elements}
use deterministic_audit_runt.Validators.Transition.Guards.{
  complaint_at, reference_issues, report, reference_guard, guard_matches_event,
}
use mathlib.Core.Path.{ap}

-- The entity is there, and there is nothing to complain of.
abbrev pub IsAccepted : CanonicalState → String → (Json → Result (Option String)) → Json → Type 0
IsAccepted st referenced complaint id =
    (entity : Json) × (get_entity st referenced id ≡ ok entity)
    × (is_null entity ≡ false)
    × (complaint entity ≡ ok none)

some_ne_none : {A : Type 0} {a : A} → ok (some a) ≢ ok none
some_ne_none h = cc

no_report :
    (rule_id : String) (path : FieldPath) (n : ℕ) (code : Option String)
    (rest : List ValidationIssue)
    → (report rule_id path n code ++ rest) ≡ []
    → (code ≡ none) × (rest ≡ [])
no_report rule_id path n none rest h = (refl, h)
no_report rule_id path n (some c) rest h = cc

complaint_at→ :
    (complaint : Json → Result (Option String)) (entity : Json)
    → complaint_at complaint entity ≡ ok none
    → (is_null entity ≡ false) × (complaint entity ≡ ok none)
unfolding complaint_at
complaint_at→ complaint entity h = elim (Bool-cases (is_null entity)) [
  | inl missing ↦ absurd (some_ne_none (rw missing at h))
  | inr there ↦ (there, rw there at h)
]

←complaint_at :
    (complaint : Json → Result (Option String)) (entity : Json)
    → is_null entity ≡ false
    → complaint entity ≡ ok none
    → complaint_at complaint entity ≡ ok none
unfolding complaint_at
←complaint_at complaint entity there h = rw (complaint_at, there) h

module _ (st : CanonicalState) (rule_id referenced : String) (path : FieldPath)
    (complaint : Json → Result (Option String)) where
  reference_issues→ :
      (n : ℕ) (ids : List Json)
      → reference_issues st rule_id referenced path complaint n ids ≡ ok []
      → All (IsAccepted st referenced complaint) ids
  unfolding reference_issues
  reference_issues→ n [] h = tt
  reference_issues→ n (id ∷ ids) h =
      let (entity, e1, h1) = >>=-eq-ok (get_entity st referenced id) _ h in
      let (code, e2, h2) = >>=-eq-ok (complaint_at complaint entity) _ h1 in
      let (rest, e3, h3) =
        >>=-eq-ok (reference_issues st rule_id referenced path complaint (n + 1) ids) _ h2 in
      let (no_code, no_rest) = no_report rule_id path n code rest (ok_inj h3) in
      let (there, fine) = complaint_at→ complaint entity (e2 ∙ ap ok no_code) in
      ((entity, e1, there, fine), reference_issues→ (n + 1) ids (e3 ∙ ap ok no_rest))

  ←reference_issues :
      (n : ℕ) (ids : List Json)
      → All (IsAccepted st referenced complaint) ids
      → reference_issues st rule_id referenced path complaint n ids ≡ ok []
  unfolding reference_issues
  ←reference_issues n [] h = refl
  ←reference_issues n (id ∷ ids) ((entity, e1, there, fine), rest) =
      rw (e1, ←complaint_at complaint entity there fine, ←reference_issues (n + 1) ids rest) refl

  reference_issues_iff :
      (n : ℕ) (ids : List Json)
      → (reference_issues st rule_id referenced path complaint n ids ≡ ok [])
        ↔ All (IsAccepted st referenced complaint) ids
  reference_issues_iff n ids = (reference_issues→ n ids, ←reference_issues n ids)

  -- The guard is about the event, whose field holds these ids.
  abbrev pub Names : Json → Scope → List Json → Type 0
  Names event scope ids =
      (guard_matches_event scope event ≡ ok true)
      × ((v : Json) × (resolve_path path event ≡ ok v) × (elements v ≡ ok ids))

  reference_guard→ :
      (event : Json) (scope : Scope)
      → reference_guard st event rule_id scope path referenced complaint ≡ ok []
      → (guard_matches_event scope event ≡ ok false)
        ⊎ ((ids : List Json) × Names event scope ids × All (IsAccepted st referenced complaint) ids)
  unfolding reference_guard
  reference_guard→ event scope h =
      let (matches, e, h1) = >>=-eq-ok (guard_matches_event scope event) _ h in
      elim (Bool-cases matches) [
        | inr q ↦ inl (e ∙ ap ok q)
        | inl q ↦
            let (v, e1, h2) = >>=-eq-ok (resolve_path path event) _ (rw q at h1) in
            let (ids, e2, h3) = >>=-eq-ok (elements v) _ h2 in
            inr (ids, (e ∙ ap ok q, (v, e1, e2)), reference_issues→ 0 ids h3)
      ]

  -- A guard on references has no issue exactly when its scope leaves the event out, or when the field
  -- at its path in the event holds ids that each lead to an entity of the accepted state with which
  -- the guard has no complaint.
  pub reference_guard_iff :
      (event : Json) (scope : Scope)
      → (reference_guard st event rule_id scope path referenced complaint ≡ ok []) ↔ (
          (guard_matches_event scope event ≡ ok false)
          ⊎ ((ids : List Json) × Names event scope ids
              × All (IsAccepted st referenced complaint) ids))
  unfolding reference_guard
  reference_guard_iff event scope = (
    reference_guard→ event scope,
    λ h. elim h [
      | inl out ↦ rw (reference_guard, out) refl
      | inr (ids, (matches, (v, e1, e2)), accepted) ↦
          rw (reference_guard, matches, e1, e2) (←reference_issues 0 ids accepted)
    ],
  )
