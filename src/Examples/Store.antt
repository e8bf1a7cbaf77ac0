-- ===== src/Examples/Store.antt =====
-- The ledger on concrete events.
use deterministic_audit_runt.Prelude.{◌≡◌, refl, none, some, [], ◌∷◌}
use deterministic_audit_runt.Errors.{ok}
use deterministic_audit_runt.EventStore.{
  AppendResult, appended, duplicate, append_event, by_event_id, after_repair, iter_stored_events,
  get_event, repair, LedgerFile, value, broken,
}
use deterministic_audit_runt.EventStore.Append.{IsClosed}
use deterministic_audit_runt.EventStore.Retry.{append_event_again, get_event_of_appended}
use deterministic_audit_runt.Examples.Data.{
  no_errors, no_secrets, event_1, empty_ledger, one_event, text_field,
}
use deterministic_audit_runt.Json.{str, item, Json, obj, end}
use deterministic_audit_runt.EventStore.Repair.{Repaired, repair_cases}
use deterministic_audit_runt.EventStore.Answer.{Answer}
use deterministic_audit_runt.Json.Canonical.{canonical, equals}
use deterministic_audit_runt.EventStore.Torn.{append_after_torn_tail}
use deterministic_audit_runt.Redaction.{redact_event}
use deterministic_audit_runt.EventStore.Unique.{IsUnique, Reachable-IsUnique, submitted, start}

pub empty-IsClosed : IsClosed empty_ledger
empty-IsClosed = record { sound = record { lines_sound = tt; tail_sound = tt }; no_tail = refl }

abbrev answer_1 : AppendResult
answer_1 = record {
  outcome = appended;
  event_id = str "event_1";
  line_number = 1;
  matched_on = none;
}

appended_1 :
    append_event no_errors no_secrets event_1 empty_ledger
    ≡ (ok answer_1, (append_event no_errors no_secrets event_1 empty_ledger).1)
unfolding append_event after_repair iter_stored_events item
appended_1 = refl

append_event_again_example :
    append_event no_errors no_secrets event_1
      (append_event no_errors no_secrets event_1 empty_ledger).1
    ≡ (
      ok (record {
        outcome = duplicate;
        event_id = str "event_1";
        line_number = 1;
        matched_on = some by_event_id;
      }),
      (append_event no_errors no_secrets event_1 empty_ledger).1,
    )
unfolding item
append_event_again_example =
    append_event_again no_errors no_secrets event_1 empty_ledger empty-IsClosed refl answer_1
      (append_event no_errors no_secrets event_1 empty_ledger).1 appended_1 refl

get_event_of_appended_example :
    get_event "event_1" (append_event no_errors no_secrets event_1 empty_ledger).1 ≡ (
      ok (some (canonical (redact_event no_secrets event_1))),
      (append_event no_errors no_secrets event_1 empty_ledger).1,
    )
unfolding item
get_event_of_appended_example =
    get_event_of_appended no_errors no_secrets event_1 empty_ledger empty-IsClosed refl answer_1
      (append_event no_errors no_secrets event_1 empty_ledger).1 appended_1 refl

-- An event, and a line that was cut off in the middle.
abbrev cut_off : LedgerFile
cut_off = record { lines = value event_1 ∷ []; tail = some broken }

repair_cases_example : Repaired cut_off
repair_cases_example = repair_cases cut_off

cut_off-repaired : repair cut_off ≡ ok one_event
unfolding repair
cut_off-repaired = refl

-- An event whose line break is missing.
abbrev event_0 : Json
event_0 = obj (
    text_field "id" "event_0"
      (text_field "audit_id" "audit_1" (text_field "idempotency_key" "key_0" end)))

abbrev torn : LedgerFile
torn = record { lines = []; tail = some (value event_0) }

abbrev event_2 : Json
event_2 = obj (
    text_field "id" "event_2"
      (text_field "audit_id" "audit_1" (text_field "idempotency_key" "key_2" end)))

abbrev answer_2 : AppendResult
answer_2 = record {
  outcome = appended;
  event_id = str "event_2";
  line_number = 2;
  matched_on = none;
}

appended_2 :
    append_event no_errors no_secrets event_2 torn
    ≡ (ok answer_2, (append_event no_errors no_secrets event_2 torn).1)
unfolding append_event after_repair iter_stored_events item redact_event equals
appended_2 = refl

append_after_torn_tail_example :
    repair (append_event no_errors no_secrets event_2 torn).1 ≡ ok empty_ledger
append_after_torn_tail_example =
    append_after_torn_tail no_errors no_secrets event_2 torn
      (text_field "id" "event_0"
        (text_field "audit_id" "audit_1" (text_field "idempotency_key" "key_0" end)))
      answer_2 (append_event no_errors no_secrets event_2 torn).1 tt refl appended_2 refl

Reachable-IsUnique_example : IsUnique (append_event no_errors no_secrets event_1 empty_ledger).1
Reachable-IsUnique_example =
    Reachable-IsUnique no_errors no_secrets
      (append_event no_errors no_secrets event_1 empty_ledger).1
      (submitted empty_ledger (append_event no_errors no_secrets event_1 empty_ledger).1 event_1
        answer_1 start appended_1)
