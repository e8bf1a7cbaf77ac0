-- ===== src/Examples/Data.antt =====
-- Events, a ledger and rules in the shape of those in examples/ and rules/ of the repository.
use deterministic_audit_runt.Prelude.{String, List, [], ◌∷◌, none}
use deterministic_audit_runt.Json.{Json, Fields, null, str, obj, field, end}
use deterministic_audit_runt.EventStore.{LedgerFile, value, StoredEvent}

abbrev pub no_errors : {A B : Type 0} → A → List B
no_errors x = []

abbrev pub no_secrets : String → String → String
no_secrets s name = s

abbrev pub text_field : String → String → Fields → Fields
text_field k s = field k (str s)

abbrev pub payload_1 : Json
payload_1 =
    obj
      (text_field "id" "task_1" (text_field "audit_id" "audit_1" (text_field "status" "open" end)))

abbrev pub actor_1 : Json
actor_1 = obj (text_field "actor_type" "system" (field "role" null end))

-- A task is created.
abbrev pub event_1 : Json
event_1 = obj (
    text_field "id" "event_1" (
      text_field "audit_id" "audit_1" (
        text_field "idempotency_key" "key_1" (
          text_field "event_type" "task.created" (
            text_field "entity_type" "task" (
              text_field "entity_id" "task_1" (
                field "actor" actor_1 (
                  field "acceptance" (obj (text_field "status" "accepted" end))
                    (field "payload" payload_1 end)))))))))

abbrev pub empty_ledger : LedgerFile
empty_ledger = record { lines = []; tail = none }

abbrev pub one_event : LedgerFile
one_event = record { lines = value event_1 ∷ []; tail = none }

abbrev pub stored_1 : StoredEvent
stored_1 = record { line_number = 1; event = event_1 }
