-- ===== src/Projector.antt =====
-- runtime/projector.py: the canonical state as a replay of the accepted events in ledger order. The
-- jsonschema validator of the state is the parameter `state_errors`.
mod State
pub mod Replay
use deterministic_audit_runt.Prelude.{
  ℕ, ◌+◌, ◌*◌, String, Bool, false, not, ◌&&◌, Option, none, some, List, [], ◌∷◌, length, is_empty,
  ltb, if◌then◌else◌,
}
use deterministic_audit_runt.Errors.{◌>>=◌, type_error, projection_error, Result, ok, err}
use deterministic_audit_runt.Json.{Json, item, str, is_null, get}
use deterministic_audit_runt.EventStore.{LedgerFile, StoredEvent, iter_stored_events}
use deterministic_audit_runt.Json.Canonical.{equals}
unfoldable pub use State.*

-- A key of a dict. The event schema admits texts only.
abbrev pub as_key : Json → Result String
as_key (str s) = ok s
as_key _ = err type_error

unfoldable pub apply_audit : CanonicalState → Json → Json → Json → Result CanonicalState
apply_audit st event payload payload_id = do
  audit_id ← item "audit_id" event
  if equals payload_id audit_id then ok (record st { audit = payload }) else err projection_error

abbrev pub put_named : Option Collection → String → Json → CanonicalState → Result CanonicalState
put_named none key payload st = err projection_error
put_named (some c) key payload st = ok (put c key payload st)

unfoldable pub apply_entity : CanonicalState → Json → Json → Json → Json → Result CanonicalState
unfolding collection_named
apply_entity st event entity_type entity_id payload = do
  payload_audit_id ← get "audit_id" payload
  audit_id ← item "audit_id" event
  if not (equals payload_audit_id audit_id) then err projection_error else do
    name ← as_key entity_type
    key ← as_key entity_id
    put_named (collection_named name) key payload st

unfoldable pub apply_payload : CanonicalState → Json → Json → Json → Json → Result CanonicalState
unfolding apply_audit apply_entity
apply_payload st event entity_type entity_id payload = do
  payload_id ← item "id" payload
  if not (equals payload_id entity_id)
      then err projection_error
      else if equals entity_type (str "audit")
      then apply_audit st event payload payload_id
      else apply_entity st event entity_type entity_id payload

unfoldable pub apply_event : CanonicalState → Json → Result CanonicalState
unfolding apply_payload
apply_event st event = do
  entity_type ← item "entity_type" event
  entity_id ← item "entity_id" event
  payload ← item "payload" event
  apply_payload st event entity_type entity_id payload

-- `stored_event.event["acceptance"]["status"] == "accepted"`
unfoldable pub is_accepted : Json → Result Bool
is_accepted event = do
  acceptance ← item "acceptance" event
  status ← item "status" acceptance
  ok (equals status (str "accepted"))

unfoldable pub accepted_events : List StoredEvent → Result (List Json)
unfolding is_accepted
accepted_events [] = ok []
accepted_events (stored ∷ rest) = do
  keep ← is_accepted stored.event
  later ← accepted_events rest
  ok (if keep then stored.event ∷ later else later)

-- The set `{event["audit_id"] for event in accepted_events}`, as far as its size is asked for: a
-- first element, and whether there is another one.
unfoldable pub one_audit_id : Option Json → List Json → Result (Option Json)
one_audit_id seen [] = ok seen
one_audit_id seen (event ∷ rest) = do
  a ← item "audit_id" event
  let first = one_audit_id (some a) rest
  let again = one_audit_id seen rest
  elim seen [ none ↦ first | some b ↦ if equals a b then again else err projection_error ]

unfoldable pub resolve_audit_id : List Json → Option String → Result (Option Json)
unfolding one_audit_id
resolve_audit_id events (some requested) = ok (some (str requested))
resolve_audit_id events none = one_audit_id none events

-- `resolved_audit_id is not None and event["audit_id"] != resolved_audit_id`
unfoldable pub is_foreign : Option Json → Json → Result Bool
is_foreign none event = ok false
is_foreign (some resolved) event = do a ← item "audit_id" event; ok (not (equals a resolved))

-- The loop, with the number of events applied so far.
unfoldable pub apply_all :
    Option Json → CanonicalState → ℕ → List Json → Result (CanonicalState × ℕ)
unfolding apply_event is_foreign
apply_all resolved st applied [] = ok (st, applied)
apply_all resolved st applied (event ∷ rest) = do
  foreign ← is_foreign resolved event
  let skipped = apply_all resolved st applied rest
  let done = (apply_event st event >>= λ st'. apply_all resolved st' (applied + 1) rest)
  if foreign then skipped else done

pub record Built : Type 0 where
  pub state : CanonicalState
  pub total : ℕ
  pub accepted : ℕ

module _ (state_errors : CanonicalState → List String) where
  -- The two checks behind the loop.
  unfoldable pub checked : ℕ → ℕ → CanonicalState × ℕ → Result Built
  checked total accepted (state, applied) =
      if ltb 0 applied && is_null state.audit
      then err projection_error
      else if is_empty (state_errors state)
      then ok (record { state = state; total = total; accepted = accepted })
      else err projection_error

  unfoldable pub project : Option String → List StoredEvent → Result Built
  unfolding accepted_events resolve_audit_id apply_all empty_state checked
  project audit_id stored = do
    events ← accepted_events stored
    resolved ← resolve_audit_id events audit_id
    applied ← apply_all resolved empty_state 0 events
    checked (length stored) (length events) applied

  unfoldable pub build_state : Option String → LedgerFile → Result Built × LedgerFile
  unfolding project
  build_state audit_id f =
      let (stored, f') = iter_stored_events audit_id f in (stored >>= project audit_id, f')
