-- ===== src/Validators/Suite/Passed.antt =====
-- What runtime/validators/suite.py has found of an event that it calls valid.
use deterministic_audit_runt.Prelude.{
  ◌≡◌, refl, List, [], ◌∷◌, ◌++◌, true, none, is_empty, sym, ◌∙◌, ◌≢◌,
}
use deterministic_audit_runt.Errors.{Result, ok, err, ◌>>=◌, >>=-eq-ok, ok_inj}
use deterministic_audit_runt.Json.{Json}
use deterministic_audit_runt.EventStore.{LedgerFile, StoredEvent, stored_from, all_lines}
use deterministic_audit_runt.EventStore.Repair.{IsSound, iter_stored_events_of_IsSound}
use deterministic_audit_runt.Validators.Issue.{ValidationIssue, ValidationResult}
use deterministic_audit_runt.Validators.Transition.{validate_transition}
use deterministic_audit_runt.Validators.Schema.{validate_schema}
use deterministic_audit_runt.Validators.SourceBinding.{validate_source_binding}
use deterministic_audit_runt.Validators.Duplicate.{validate_duplicate}
use deterministic_audit_runt.Validators.Contradiction.{validate_contradiction}
use deterministic_audit_runt.Validators.Suite.{
  Environment, result_of, gather, after_duplicates, against_ledger, after_schema, validate_event,
}
use mathlib.Core.Path.{ap}
use mathlib.Core.Bool.{false≢true}

-- A result with an issue is not valid.
not_valid :
    (i : ValidationIssue) (is : List ValidationIssue) {result : ValidationResult}
    → ok (result_of (i ∷ is)) ≡ ok result
    → result.is_valid ≢ true
not_valid i is h v = false≢true (ap (λ r. r.is_valid) (ok_inj h) ∙ v)

empty_parts :
    (xs ys zs : List ValidationIssue)
    → is_empty (xs ++ (ys ++ zs)) ≡ true
    → (xs ≡ []) × ((ys ≡ []) × (zs ≡ []))
empty_parts [] [] [] h = (refl, (refl, refl))
empty_parts [] [] (z ∷ zs) h = cc
empty_parts [] (y ∷ ys) zs h = cc
empty_parts (x ∷ xs) ys zs h = cc

module _ (env : Environment) (event : Json) (f : LedgerFile) where
  -- None of the five validators has an issue.
  pub record IsPassed : Type 0 where
    pub stored : List StoredEvent
    pub schema_passed : validate_schema env.error_paths event ≡ ok []
    pub stored_eq : stored_from 1 none (all_lines f) ≡ ok stored
    pub duplicate_passed : validate_duplicate env.fingerprint env.equivalent event stored ≡ ok []
    pub source_passed : validate_source_binding event ≡ ok []
    pub transition_passed : validate_transition env.state_errors env.rules f event ≡ ok []
    pub contradiction_passed : validate_contradiction env.state_errors f event ≡ ok []

  gather-passed :
      {result : ValidationResult}
      → gather env event f ≡ ok result
      → result.is_valid ≡ true
      → (validate_source_binding event ≡ ok [])
        × ((validate_transition env.state_errors env.rules f event ≡ ok [])
            × (validate_contradiction env.state_errors f event ≡ ok []))
  unfolding gather
  gather-passed {result} h v =
      let (source, e1, h1) = >>=-eq-ok (validate_source_binding event) _ h in
      let (transition, e2, h2) =
        >>=-eq-ok (validate_transition env.state_errors env.rules f event) _ h1 in
      let (contradiction, e3, h3) =
        >>=-eq-ok (validate_contradiction env.state_errors f event) _ h2 in
      let (a, (b, c)) = empty_parts source transition contradiction (rw (sym (ok_inj h3)) at v) in
      (rw a at e1, (rw b at e2, rw c at e3))

  after_duplicates-passed :
      (issues : List ValidationIssue) {result : ValidationResult}
      → after_duplicates env event f issues ≡ ok result
      → result.is_valid ≡ true
      → (issues ≡ []) × (gather env event f ≡ ok result)
  unfolding after_duplicates
  after_duplicates-passed [] h v = (refl, h)
  after_duplicates-passed (i ∷ is) h v = elim (not_valid i is h v) [ ]

  -- The file that the validators leave is the one that they were given.
  after_schema-file :
      (issues : Result (List ValidationIssue)) → IsSound f → (after_schema env event f issues).1 ≡ f
  unfolding after_schema against_ledger
  after_schema-file (err e) s = refl
  after_schema-file (ok []) s = rw (after_schema, iter_stored_events_of_IsSound none f s) refl
  after_schema-file (ok (i ∷ is)) s = refl

  pub validate_event-file : IsSound f → (validate_event env event f).1 ≡ f
  unfolding validate_event
  validate_event-file s = after_schema-file (validate_schema env.error_paths event) s

  after_schema-passed :
      (issues : Result (List ValidationIssue)) {result : ValidationResult}
      → IsSound f
      → validate_schema env.error_paths event ≡ issues
      → (after_schema env event f issues).0 ≡ ok result
      → result.is_valid ≡ true
      → IsPassed
  unfolding after_schema against_ledger
  after_schema-passed (err e) s q h v = cc
  after_schema-passed (ok (i ∷ is)) s q h v = elim (not_valid i is h v) [ ]
  after_schema-passed (ok []) {result} s q h v =
      let k = rw (after_schema, iter_stored_events_of_IsSound none f s) at h in
      let (issues, e1, h1) =
        >>=-eq-ok
          (stored_from 1 none (all_lines f)
            >>= validate_duplicate env.fingerprint env.equivalent event)
          _ k in
      let (stored, e0, h0) = >>=-eq-ok (stored_from 1 none (all_lines f)) _ e1 in
      let (a, g) = after_duplicates-passed issues h1 v in
      let (b, (c, d)) = gather-passed g v in
      record {
        stored = stored;
        schema_passed = q;
        stored_eq = e0;
        duplicate_passed = h0 ∙ ap ok a;
        source_passed = b;
        transition_passed = c;
        contradiction_passed = d;
      }

  -- On a repaired ledger an event that the suite calls valid has passed all five validators: the
  -- schema, the comparison with every stored event, the source references, the transition and the
  -- contradiction validator each answered with no issue.
  pub validate_event-IsPassed :
      {result : ValidationResult}
      → IsSound f
      → (validate_event env event f).0 ≡ ok result
      → result.is_valid ≡ true
      → IsPassed
  unfolding validate_event
  validate_event-IsPassed s h v =
      after_schema-passed (validate_schema env.error_paths event) s refl h v
