-- ===== src/Projector/Replay.antt =====
-- The replay of runtime/projector.py against a description that has no state: an entity is the
-- payload of the last event that was written for it.
use deterministic_audit_runt.Prelude.{
  String, ◌≡◌, refl, ap, ◌&&◌, Option, none, some, arith, if◌then◌else◌, inl, inr, Bool-cases, ℕ,
  Bool, true, false, List, [], ◌∷◌, ◌+◌, ◌∙◌, ◌⊎◌, length,
}
use deterministic_audit_runt.Errors.{Result, ok, ◌>>=◌, >>=-eq-ok, err}
use deterministic_audit_runt.Projector.State.{
  CanonicalState, Collection, collection_named, entity_name, put, collection_named_inv,
  audit_is_no_collection, entity_name-eq, lookup-put, empty_state,
}
use deterministic_audit_runt.Json.{Json, str, item, lookup}
use deterministic_audit_runt.Projector.{
  apply_entity, entity_name, put_named, put, collection_named_inv, apply_payload, equals,
  apply_event, audit_is_no_collection, entity_name-eq, lookup-put, apply_all, is_foreign, project,
  StoredEvent, Built, accepted_events, resolve_audit_id, empty_state, checked,
}
use deterministic_audit_runt.Json.Canonical.{equals, equals-str_inv, equals-str}
use deterministic_audit_runt.EventStore.{StoredEvent}

-- What an event writes under a key of a collection.
unfoldable pub written : Collection → String → Json → Result (Option Json)
written c k event = do
  entity_type ← item "entity_type" event
  entity_id ← item "entity_id" event
  payload ← item "payload" event
  ok (
      if equals entity_type (str (entity_name c)) && equals entity_id (str k)
      then some payload
      else none)

abbrev pub or_older : Result (Option Json) → Option Json → Option Json
or_older (ok (some payload)) older = some payload
or_older _ older = older

-- Where an applied event went.
data Applied (st st' : CanonicalState) (entity_type entity_id payload : Json) : Type 0 where
  to_audit :
      entity_type ≡ str "audit"
      → st' ≡ record st { audit = payload }
      → Applied st st' entity_type entity_id payload
  to_entity :
      (d : Collection) (key : String)
      → entity_type ≡ str (entity_name d)
      → entity_id ≡ str key
      → st' ≡ put d key payload st
      → Applied st st' entity_type entity_id payload

module _ (st st' : CanonicalState) (event : Json) where
  apply_named_inv :
      (o : Option Collection) (name key : String) (payload : Json)
      → collection_named name ≡ o
      → put_named o key payload st ≡ ok st'
      → Applied st st' (str name) (str key) payload
  apply_named_inv none name key payload e h = cc
  apply_named_inv (some d) name key payload e h =
      to_entity d key (ap str (collection_named_inv name d e)) refl (cc)

  apply_entity_inv :
      (entity_type entity_id payload : Json)
      → apply_entity st event entity_type entity_id payload ≡ ok st'
      → Applied st st' entity_type entity_id payload
  unfolding apply_entity
  apply_entity_inv (str name) (str key) payload h =
      apply_named_inv (collection_named name) name key payload refl (ground arith)
  apply_entity_inv (str name) _ payload h = absurd (ground arith)
  apply_entity_inv _ _ payload h = absurd (ground arith)

  apply_payload_inv :
      (entity_type entity_id payload payload_id : Json)
      → item "id" payload ≡ ok payload_id
      → apply_payload st event entity_type entity_id payload ≡ ok st'
      → Applied st st' entity_type entity_id payload
  unfolding apply_payload
  apply_payload_inv entity_type entity_id payload payload_id i h =
      elim (Bool-cases (equals entity_type (str "audit"))) [
        | inl a ↦ to_audit (equals-str_inv entity_type "audit" a) (ground arith)
        | inr b ↦ apply_entity_inv entity_type entity_id payload (ground arith)
      ]

-- What an applied event leaves under each key: its payload where it was written, and what was there
-- anywhere else.
lookup-Applied :
    (c : Collection) (k : String) (st st' : CanonicalState)
    (event entity_type entity_id payload : Json)
    → item "entity_type" event ≡ ok entity_type
    → item "entity_id" event ≡ ok entity_id
    → item "payload" event ≡ ok payload
    → Applied st st' entity_type entity_id payload
    → lookup k (st'.entities c) ≡ or_older (written c k event) (lookup k (st.entities c))
unfolding written
lookup-Applied c k st st' event t i p et ei ep (to_audit a s) =
    rw (et, ei, ep, a, s) (simp (equals-str, audit_is_no_collection))
lookup-Applied c k st st' event t i p et ei ep (to_entity d key a b s) =
    rw (et, ei, ep, a, b, s)
      (simp (equals-str, entity_name-eq, lookup-put d c key k p st) (ground arith))

pub lookup-apply_event :
    (c : Collection) (k : String) (st st' : CanonicalState) (event : Json)
    → apply_event st event ≡ ok st'
    → lookup k (st'.entities c) ≡ or_older (written c k event) (lookup k (st.entities c))
unfolding apply_event apply_payload
lookup-apply_event c k st st' event h =
    let (t, et, ht) = >>=-eq-ok (item "entity_type" event) _ h in
    let (i, ei, hi) = >>=-eq-ok (item "entity_id" event) _ ht in
    let (p, ep, hp) = >>=-eq-ok (item "payload" event) _ hi in
    let (pid, epid, _) = >>=-eq-ok (item "id" p) _ hp in
    lookup-Applied c k st st' event t i p et ei ep
      (apply_payload_inv st st' event t i p pid epid hp)

abbrev or_else : Option Json → Option Json → Option Json
or_else (some p) older = some p
or_else none older = older

-- What one event of the replay writes, if it belongs to the audit.
unfoldable pub written_here : Option Json → Collection → String → Json → Option Json
unfolding written
written_here resolved c k event = elim (is_foreign resolved event) [
  | ok false ↦ or_older (written c k event) none
  | _ ↦ none
]

-- The payload of the last of the events that write under the key.
unfoldable pub last_written : Option Json → Collection → String → List Json → Option Json
unfolding written_here
last_written resolved c k [] = none
last_written resolved c k (event ∷ rest) =
    or_else (last_written resolved c k rest) (written_here resolved c k event)

or_older_split :
    (w : Result (Option Json)) (older : Option Json)
    → or_older w older ≡ or_else (or_older w none) older
or_older_split (ok (some p)) older = refl
or_older_split (ok none) older = refl
or_older_split (err e) older = refl

or_else_assoc : (a b d : Option Json) → or_else a (or_else b d) ≡ or_else (or_else a b) d
or_else_assoc (some p) b d = refl
or_else_assoc none b d = refl

-- One round of the loop: the event is passed over or applied.
pub apply_all_step :
    (resolved : Option Json) (st st' : CanonicalState) (n m : ℕ) (event : Json) (rest : List Json)
    → apply_all resolved st n (event ∷ rest) ≡ ok (st', m)
    → (is_foreign resolved event ≡ ok true) × (apply_all resolved st n rest ≡ ok (st', m))
      ⊎ (is_foreign resolved event ≡ ok false)
        × ((u : CanonicalState) × (apply_event st event ≡ ok u)
            × (apply_all resolved u (n + 1) rest ≡ ok (st', m)))
unfolding apply_all
apply_all_step resolved st st' n m event rest h = go (is_foreign resolved event) refl
  where
    Goal : Type 0
    Goal =
        (is_foreign resolved event ≡ ok true) × (apply_all resolved st n rest ≡ ok (st', m))
        ⊎ (is_foreign resolved event ≡ ok false)
          × ((u : CanonicalState) × (apply_event st event ≡ ok u)
              × (apply_all resolved u (n + 1) rest ≡ ok (st', m)))

    go : (r : Result Bool) → is_foreign resolved event ≡ r → Goal
    go (err e) f = absurd (ground arith)
    go (ok true) f = inl (f, ground arith)
    go (ok false) f = inr (f, >>=-eq-ok (apply_event st event) _ (ground arith))

module _ (resolved : Option Json) (c : Collection) (k : String) where
  written_here_foreign :
      (event : Json) → is_foreign resolved event ≡ ok true → written_here resolved c k event ≡ none
  unfolding written_here
  written_here_foreign event f = ground arith

  written_here_own :
      (event : Json)
      → is_foreign resolved event ≡ ok false
      → written_here resolved c k event ≡ or_older (written c k event) none
  unfolding written_here
  written_here_own event f = ground arith

  lookup-apply_all :
      (st st' : CanonicalState) (n m : ℕ) (events : List Json)
      → apply_all resolved st n events ≡ ok (st', m)
      → lookup k (st'.entities c)
        ≡ or_else (last_written resolved c k events) (lookup k (st.entities c))
  unfolding last_written
  lookup-apply_all st st' n m [] h = unfold apply_all in ground arith
  lookup-apply_all st st' n m (event ∷ rest) h =
      elim (apply_all_step resolved st st' n m event rest h) [
        | inl (f, r) ↦ rw (written_here_foreign event f) (
            lookup-apply_all st st' n m rest r
            ∙ or_else_assoc (last_written resolved c k rest) none (lookup k (st.entities c)))
        | inr (f, (u, a, r)) ↦ rw (written_here_own event f) (
            lookup-apply_all u st' (n + 1) m rest r
            ∙ (ap (or_else (last_written resolved c k rest)) (
                  lookup-apply_event c k st u event a
                  ∙ or_older_split (written c k event) (lookup k (st.entities c)))
                ∙ or_else_assoc (last_written resolved c k rest) (or_older (written c k event) none)
                    (lookup k (st.entities c))))
      ]

or_else-none : (o : Option Json) → or_else o none ≡ o
or_else-none none = refl
or_else-none (some p) = refl

state-checked :
    (state_errors : CanonicalState → List String) (total accepted : ℕ) (x : CanonicalState × ℕ)
    (built : Built)
    → checked state_errors total accepted x ≡ ok built
    → built.state ≡ x.0
unfolding checked
state-checked state_errors total accepted x built h = ground arith

-- When the projection succeeds, each entry of each collection is the payload of the last accepted
-- event of the audit that was written for it, and there are no other entries.
pub project-eq-last_written :
    (state_errors : CanonicalState → List String) (audit_id : Option String)
    (stored : List StoredEvent) (built : Built) (c : Collection) (k : String)
    → project state_errors audit_id stored ≡ ok built
    → (events : List Json) × (resolved : Option Json) × (accepted_events stored ≡ ok events)
      × (resolve_audit_id events audit_id ≡ ok resolved)
      × (lookup k (built.state.entities c) ≡ last_written resolved c k events)
unfolding project
project-eq-last_written state_errors audit_id stored built c k h =
    let (events, ee, h1) = >>=-eq-ok (accepted_events stored) _ h in
    let (resolved, er, h2) = >>=-eq-ok (resolve_audit_id events audit_id) _ h1 in
    let (x, ea, h3) = >>=-eq-ok (apply_all resolved empty_state 0 events) _ h2 in
    (
      events,
      resolved,
      ee,
      er,
      ap (λ s. lookup k (s.entities c))
            (state-checked state_errors (length stored) (length events) x built h3)
          ∙ (lookup-apply_all resolved c k empty_state x.0 0 x.1 events ea
              ∙ (unfold empty_state lookup in or_else-none (last_written resolved c k events))),
    )
