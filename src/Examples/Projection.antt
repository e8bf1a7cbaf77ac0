-- ===== src/Examples/Projection.antt =====
-- The projection of concrete ledgers.
use deterministic_audit_runt.Prelude.{◌≡◌, refl, some, [], ◌∷◌, List, Option, if◌then◌else◌}
use deterministic_audit_runt.Errors.{ok}
use deterministic_audit_runt.Json.{Json, lookup, field, obj, end, item, get, set_field}
use deterministic_audit_runt.Projector.{
  project, Built, accepted_events, resolve_audit_id, tasks, same_collection, put,
}
use deterministic_audit_runt.Projector.Replay.{last_written, project-eq-last_written}
use deterministic_audit_runt.Examples.Data.{no_errors, stored_1, payload_1, text_field}
use deterministic_audit_runt.EventStore.{StoredEvent}
use deterministic_audit_runt.Json.Canonical.{equals}

-- The audit itself.
abbrev pub payload_0 : Json
payload_0 = obj (text_field "id" "audit_1" (text_field "status" "active" end))

abbrev event_0 : Json
event_0 = obj (
    text_field "id" "event_0" (
      text_field "audit_id" "audit_1" (
        text_field "event_type" "audit.created" (
          text_field "entity_type" "audit" (
            text_field "entity_id" "audit_1" (
              field "acceptance" (obj (text_field "status" "accepted" end))
                (field "payload" payload_0 end)))))))

abbrev stored_events : List StoredEvent
stored_events = record { line_number = 1; event = event_0 } ∷ stored_1 ∷ []

abbrev built_1 : Built
built_1 = record {
  state = (record {
    audit = payload_0;
    entities = λ c. if same_collection tasks c then field "task_1" payload_1 end else end;
  });
  total = 2;
  accepted = 2;
}

built_ok : project no_errors (some "audit_1") stored_events ≡ ok built_1
unfolding project item equals get put set_field
built_ok = refl

project-eq-last_written_example :
    (events : List Json) × (resolved : Option Json) × (accepted_events stored_events ≡ ok events)
    × (resolve_audit_id events (some "audit_1") ≡ ok resolved)
    × (lookup "task_1" (built_1.state.entities tasks) ≡ last_written resolved tasks "task_1" events)
project-eq-last_written_example =
    project-eq-last_written no_errors (some "audit_1") stored_events built_1 tasks "task_1" built_ok
