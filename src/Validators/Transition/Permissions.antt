-- ===== src/Validators/Transition/Permissions.antt =====
-- `_validate_worker_permissions` of runtime/validators/transition.py: who may emit an event.
use deterministic_audit_runt.Prelude.{
  ◌≡◌, String, List, some, true, false, refl, ◌∙◌, ◌↔◌, inl, inr, Option, none, [], Bool-cases,
  cons_ne_nil,
}
use deterministic_audit_runt.Errors.{ok, >>=-eq-ok, ok_inj}
use deterministic_audit_runt.Json.{Json, item, get, is_null}
use deterministic_audit_runt.Validators.Transition.Tables.{Rules}
use deterministic_audit_runt.Validators.Transition.Entities.{is_text, is_among}
use deterministic_audit_runt.Validators.Transition.Requests.{
  permissions_of, listing_issues, role_issues, validate_worker_permissions,
}
use mathlib.Core.Path.{ap}

-- The event comes from no worker, or from one whose role lists its type.
pub data IsPermitted (rules : Rules) (event : Json) : Type 0 where
  not_worker :
      (actor actor_type : Json)
      → item "actor" event ≡ ok actor
      → item "actor_type" actor ≡ ok actor_type
      → is_text "worker" actor_type ≡ false
      → IsPermitted rules event
  listed :
      (actor actor_type role event_type : Json) (types : List String)
      → item "actor" event ≡ ok actor
      → item "actor_type" actor ≡ ok actor_type
      → get "role" actor ≡ ok role
      → is_null role ≡ false
      → permissions_of rules role ≡ ok (some types)
      → item "event_type" event ≡ ok event_type
      → is_among types event_type ≡ true
      → IsPermitted rules event

listing_issues-none :
    (types : Option (List String)) (event_type : Json)
    → listing_issues types event_type ≡ []
    → (ts : List String) × (types ≡ some ts) × (is_among ts event_type ≡ true)
unfolding listing_issues
listing_issues-none none event_type h = cc
listing_issues-none (some types) event_type h = elim (Bool-cases (is_among types event_type)) [
  | inl q ↦ (types, refl, q)
  | inr q ↦ absurd (cons_ne_nil (rw q at h))
]

role_issues→ :
    (rules : Rules) (event actor actor_type : Json)
    → item "actor" event ≡ ok actor
    → item "actor_type" actor ≡ ok actor_type
    → role_issues rules event actor ≡ ok []
    → IsPermitted rules event
unfolding role_issues
role_issues→ rules event actor actor_type e1 e2 h =
    let (role, e3, h3) = >>=-eq-ok (get "role" actor) _ h in
    elim (Bool-cases (is_null role)) [
      | inl missing ↦ absurd (cons_ne_nil (ok_inj (rw missing at h3)))
      | inr known ↦
          let (allowed, e4, h4) = >>=-eq-ok (permissions_of rules role) _ (rw known at h3) in
          let (event_type, e5, h5) = >>=-eq-ok (item "event_type" event) _ h4 in
          let (types, some_eq, q) = listing_issues-none allowed event_type (ok_inj h5) in
          listed actor actor_type role event_type types e1 e2 e3 known (e4 ∙ ap ok some_eq) e5 q
    ]

validate_worker_permissions→ :
    (rules : Rules) (event : Json)
    → validate_worker_permissions rules event ≡ ok []
    → IsPermitted rules event
unfolding validate_worker_permissions
validate_worker_permissions→ rules event h =
    let (actor, e1, h1) = >>=-eq-ok (item "actor" event) _ h in
    let (actor_type, e2, h2) = >>=-eq-ok (item "actor_type" actor) _ h1 in
    elim (Bool-cases (is_text "worker" actor_type)) [
      | inl worker ↦ role_issues→ rules event actor actor_type e1 e2 (rw worker at h2)
      | inr other ↦ not_worker actor actor_type e1 e2 other
    ]

←validate_worker_permissions :
    (rules : Rules) (event : Json)
    → IsPermitted rules event
    → validate_worker_permissions rules event ≡ ok []
unfolding validate_worker_permissions role_issues listing_issues
←validate_worker_permissions rules event (not_worker actor actor_type e1 e2 other) =
    rw (validate_worker_permissions, e1, e2, other) refl
←validate_worker_permissions rules event
      (listed actor actor_type role event_type types e1 e2 e3 known e4 e5 q) =
    elim (Bool-cases (is_text "worker" actor_type)) [
      | inl worker ↦
          rw
            (
              validate_worker_permissions, e1, e2, worker, role_issues, e3, known, e4, e5,
              listing_issues, q,
            )
            refl
      | inr other ↦ rw (validate_worker_permissions, e1, e2, other) refl
    ]

-- An event has no issue of permission exactly when it comes from no worker, or from a worker whose
-- role is named in the rules with the event's type in its list.
pub validate_worker_permissions_iff :
    (rules : Rules) (event : Json)
    → (validate_worker_permissions rules event ≡ ok []) ↔ IsPermitted rules event
validate_worker_permissions_iff rules event =
    (validate_worker_permissions→ rules event, ←validate_worker_permissions rules event)
