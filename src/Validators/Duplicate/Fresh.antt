-- ===== src/Validators/Duplicate/Fresh.antt =====
-- runtime/validators/duplicate.py against the scan of runtime/event_store.py.
use deterministic_audit_runt.Prelude.{
  ◌≡◌, ◌≢◌, refl, ℕ, List, [], ◌∷◌, none, true, false, Bool, Bool-cases, inl, inr, All,
  if◌then◌else◌, ◌∙◌, String, All-map,
}
use deterministic_audit_runt.Errors.{Result, ok, >>=-eq-ok, ok_inj}
use deterministic_audit_runt.Json.{Json, item}
use deterministic_audit_runt.Json.Canonical.{equals}
use deterministic_audit_runt.EventStore.{StoredEvent, same_key, find_from}
use deterministic_audit_runt.Validators.Issue.{ValidationIssue}
use deterministic_audit_runt.Validators.Duplicate.{
  is_same_content, is_equivalent_in_audit, compare_with, validate_duplicate, first_issues,
}
use mathlib.Core.Path.{ap}
use deterministic_audit_runt.Redaction.{redact_event}

-- Another id, and another audit or another idempotency key.
pub record IsOther (existing event : Json) : Type 0 where
  pub id : Json
  pub event_id : Json
  pub id_eq : item "id" existing ≡ ok id
  pub event_id_eq : item "id" event ≡ ok event_id
  pub ids_differ : equals id event_id ≡ false
  pub keys_differ : same_key existing event ≡ ok false

two_issues : (b : Bool) (i j : ValidationIssue) → (if b then i ∷ [] else j ∷ []) ≢ []
two_issues true i j h = cc
two_issues false i j h = cc

no_issue : {i : ValidationIssue} → ok (i ∷ []) ≢ ok []
no_issue h = cc

module _ (fingerprint : Json → Json) (equivalent : Json → Json → Bool) where
  compare_with-IsOther :
      (existing event : Json)
      → compare_with fingerprint equivalent existing event ≡ ok []
      → IsOther existing event
  unfolding compare_with
  compare_with-IsOther existing event h =
      let (id, e1, h1) = >>=-eq-ok (item "id" existing) _ h in
      let (event_id, e2, h2) = >>=-eq-ok (item "id" event) _ h1 in
      let content = is_same_content fingerprint equivalent existing event in
      elim (Bool-cases (equals id event_id)) [
        | inl same ↦ absurd (two_issues content _ _ (ok_inj (rw same at h2)))
        | inr differ ↦
            let (like, e3, h3) =
              >>=-eq-ok (is_equivalent_in_audit fingerprint equivalent existing event) _
                (rw differ at h2) in
            elim (Bool-cases like) [
              | inl so ↦ absurd (no_issue (rw so at h3))
              | inr other_content ↦
                  let (matched, e4, h4) =
                    >>=-eq-ok (same_key existing event) _ (rw other_content at h3) in
                  elim (Bool-cases matched) [
                    | inl so ↦ absurd (two_issues content _ _ (ok_inj (rw so at h4)))
                    | inr other ↦ record {
                      id = id;
                      event_id = event_id;
                      id_eq = e1;
                      event_id_eq = e2;
                      ids_differ = differ;
                      keys_differ = e4 ∙ ap ok other;
                    }
                  ]
            ]
      ]

  first_issues-none :
      (here : List ValidationIssue) (later : Result (List ValidationIssue))
      → first_issues fingerprint equivalent here later ≡ ok []
      → (here ≡ []) × (later ≡ ok [])
  first_issues-none [] later h = (refl, h)
  first_issues-none (i ∷ is) later h = cc

  validate_duplicate-IsOther :
      (event : Json) (stored : List StoredEvent)
      → validate_duplicate fingerprint equivalent event stored ≡ ok []
      → All (λ s. IsOther s.event event) stored
  unfolding validate_duplicate
  validate_duplicate-IsOther event [] h = tt
  validate_duplicate-IsOther event (s ∷ stored) h =
      let (here, e, h1) = >>=-eq-ok (compare_with fingerprint equivalent s.event event) _ h in
      let (nothing, later) =
        first_issues-none here (validate_duplicate fingerprint equivalent event stored) h1 in
      (
        compare_with-IsOther s.event event (e ∙ ap ok nothing),
        validate_duplicate-IsOther event stored later,
      )

find_from-none :
    (event : Json) (last : ℕ) (stored : List StoredEvent)
    → All (λ s. IsOther s.event event) stored
    → (n : ℕ) × (find_from event last stored ≡ ok (none, n))
unfolding find_from
find_from-none event last [] h = (last, refl)
find_from-none event last (s ∷ stored) (other, others) =
    let (n, e) = find_from-none event s.line_number stored others in
    (n, rw (other.id_eq, other.event_id_eq, other.ids_differ, other.keys_differ) e)

-- What the store looks for is the redacted event; its id, its audit and its key are those of the
-- event.
pub record KeepsKeys (detect : String → String → String) (event : Json) : Type 0 where
  pub same_id : item "id" (redact_event detect event) ≡ item "id" event
  pub same_audit : item "audit_id" (redact_event detect event) ≡ item "audit_id" event
  pub same_idempotency_key :
      item "idempotency_key" (redact_event detect event) ≡ item "idempotency_key" event

redacted-IsOther :
    (detect : String → String → String) (existing event : Json)
    → KeepsKeys detect event
    → IsOther existing event
    → IsOther existing (redact_event detect event)
unfolding same_key
redacted-IsOther detect existing event keeps other = record {
  id = other.id;
  event_id = other.event_id;
  id_eq = other.id_eq;
  event_id_eq = keeps.same_id ∙ other.event_id_eq;
  ids_differ = other.ids_differ;
  keys_differ = rw (keeps.same_audit, keeps.same_idempotency_key) other.keys_differ;
}

-- An event in which the duplicate validator finds no issue has another id than each stored event,
-- and another audit or another idempotency key. If the redaction leaves the id, the audit and the
-- idempotency key of the event as they are, the scan that the store makes for the redacted event
-- finds nothing either: it neither takes the event for a duplicate nor raises a conflict.
pub validate_duplicate-find_from :
    (fingerprint : Json → Json) (equivalent : Json → Json → Bool)
    (detect : String → String → String) (event : Json) (stored : List StoredEvent) (last : ℕ)
    → KeepsKeys detect event
    → validate_duplicate fingerprint equivalent event stored ≡ ok []
    → All (λ s. IsOther s.event event) stored
      × ((n : ℕ) × (find_from (redact_event detect event) last stored ≡ ok (none, n)))
validate_duplicate-find_from fingerprint equivalent detect event stored last keeps h =
    let others = validate_duplicate-IsOther fingerprint equivalent event stored h in
    (
      others,
      find_from-none (redact_event detect event) last stored
          (All-map (λ s other. redacted-IsOther detect s.event event keeps other) stored others),
    )
