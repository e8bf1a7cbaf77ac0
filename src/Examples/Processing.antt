-- ===== src/Examples/Processing.antt =====
-- A batch of two candidates, of which one is accepted.
use deterministic_audit_runt.Prelude.{◌≡◌, refl, none, [], ◌∷◌, true, false, List, length, elem}
use deterministic_audit_runt.Errors.{ok, err, Result}
use deterministic_audit_runt.Examples.Data.{
  event_1, no_errors, no_secrets, empty_ledger, text_field, actor_1,
}
use deterministic_audit_runt.Examples.Rules.{rules_1}
use deterministic_audit_runt.Processing.{
  ProcessingResult, Runtime, process_candidate_events, result_for, process_candidate,
  prepare_accepted_event, Prepared, ready,
}
use deterministic_audit_runt.Processing.Counts.{Accounts, process_candidate_events-Accounts}
use deterministic_audit_runt.Validators.Suite.Passed.{IsPassed, validate_event-IsPassed}
use deterministic_audit_runt.Json.{Json, obj, null, field, end, item, get, str}
use deterministic_audit_runt.Validators.Suite.{Environment}
use deterministic_audit_runt.Processing.Step.{Turn, process_candidate-Turn}
use deterministic_audit_runt.Examples.Store.{empty-IsClosed}
use deterministic_audit_runt.Validators.Suite as Suite
use deterministic_audit_runt.EventStore.{
  LedgerFile, iter_stored_events, append_event, append_line, validate_event, stored_from,
  find_duplicate_or_conflict,
}
use deterministic_audit_runt.Examples.Projection.{payload_0}
use deterministic_audit_runt.Json.Canonical.{equals}
use deterministic_audit_runt.Redaction.{redact_event}
use deterministic_audit_runt.EventStore.Append.{found}

abbrev candidate_0 : Json
candidate_0 = obj (
    text_field "id" "event_0" (
      text_field "audit_id" "audit_1" (
        text_field "idempotency_key" "key_0" (
          text_field "event_type" "audit.created" (
            text_field "entity_type" "audit" (
              text_field "entity_id" "audit_1" (
                field "actor" actor_1 (
                  field "acceptance" (obj (text_field "status" "pending" end))
                    (field "payload" payload_0 end)))))))))

abbrev env_1 : Environment
env_1 = record {
  error_paths = no_errors;
  fingerprint = λ event. event;
  equivalent = λ a b. false;
  state_errors = no_errors;
  rules = rules_1;
}

abbrev pub runtime_1 : Runtime
runtime_1 = record {
  env = env_1;
  canonicalize = λ event. ok event;
  schema_errors = no_errors;
  detect = no_secrets;
}

process_candidate-Turn_example :
    Turn runtime_1 0 candidate_0 empty_ledger
      (process_candidate runtime_1 0 candidate_0 empty_ledger)
process_candidate-Turn_example =
    process_candidate-Turn runtime_1 0 candidate_0 empty_ledger empty-IsClosed

-- The creation of an audit, and a candidate that is no object.
abbrev pub batch : List Json
batch = candidate_0 ∷ null ∷ []

abbrev no_result : ProcessingResult
no_result = result_for [] none [] none

abbrev value_of : Result ProcessingResult → ProcessingResult
value_of (ok result) = result
value_of (err e) = no_result

abbrev pub result_1 : ProcessingResult
result_1 = value_of (process_candidate_events runtime_1 none batch empty_ledger).0

abbrev pub after_1 : LedgerFile
after_1 = (process_candidate_events runtime_1 none batch empty_ledger).1

pub processed : process_candidate_events runtime_1 none batch empty_ledger ≡ (ok result_1, after_1)
unfolding process_candidate_events elem equals Suite.validate_event item iter_stored_events
    append_event append_line redact_event
processed = refl

one_accepted : (result_1.accepted_events ≡ 1) × (length after_1.lines ≡ 1)
unfolding process_candidate_events elem equals Suite.validate_event item iter_stored_events
    append_event append_line redact_event
one_accepted = (refl, refl)

process_candidate_events-Accounts_example : Accounts batch empty_ledger after_1 result_1
process_candidate_events-Accounts_example =
    process_candidate_events-Accounts runtime_1 none batch empty_ledger after_1 result_1
      empty-IsClosed processed

valid_1 :
    (Suite.validate_event env_1 event_1 empty_ledger).0
    ≡ ok (record { is_valid = true; issues = [] })
unfolding Suite.validate_event item equals get iter_stored_events
valid_1 = refl

validate_event-IsPassed_example : IsPassed env_1 event_1 empty_ledger
validate_event-IsPassed_example =
    validate_event-IsPassed env_1 event_1 empty_ledger empty-IsClosed.sound valid_1 refl

abbrev event_of : Result Prepared → Json
event_of (ok (ready event)) = event
event_of _ = null

abbrev prepared_0 : Json
prepared_0 = event_of (prepare_accepted_event runtime_1.canonicalize candidate_0)

is_prepared : prepare_accepted_event runtime_1.canonicalize candidate_0 ≡ ok (ready prepared_0)
unfolding prepare_accepted_event equals
is_prepared = refl

is_valid_0 :
    (Suite.validate_event env_1 prepared_0 empty_ledger).0
    ≡ ok (record { is_valid = true; issues = [] })
unfolding Suite.validate_event item prepare_accepted_event equals iter_stored_events
is_valid_0 = refl

is_storable : validate_event no_errors no_secrets prepared_0 ≡ ok tt
unfolding validate_event
is_storable = refl

is_new : found no_errors no_secrets prepared_0 empty_ledger ≡ ok (none, 0)
unfolding stored_from find_duplicate_or_conflict
is_new = refl

has_id : item "id" prepared_0 ≡ ok (str "event_0")
unfolding item prepare_accepted_event equals
has_id = refl

has_audit : item "audit_id" prepared_0 ≡ ok (str "audit_1")
unfolding item prepare_accepted_event equals
has_audit = refl
