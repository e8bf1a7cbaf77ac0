-- ===== src/Examples/Traced.antt =====
-- A batch whose outcomes are recorded in the run ledger.
use deterministic_audit_runt.Processing.{
  context, Workspace, process_and_trace, CandidateEventOutcome, outcomes_of, accepted,
}
use deterministic_audit_runt.Examples.Runs.{context_1, started_file, started_sound}
use deterministic_audit_runt.Examples.Processing.{runtime_1, batch, result_1, after_1, processed}
use deterministic_audit_runt.Processing.Followed.{process_and_trace-traceable}
use deterministic_audit_runt.Errors.{ok}
use deterministic_audit_runt.Prelude.{String, ◌≡◌, refl, none, some}
use mathlib.Core.List.{Memᴰ}
use deterministic_audit_runt.EventStore.{LedgerFile}
use deterministic_audit_runt.Examples.Data.{empty_ledger}
use deterministic_audit_runt.Json.{str, Json}
use deterministic_audit_runt.RunLedger.{entry_id, next_sequence, stripped, resolve_event_trace}

abbrev workspace_1 : Workspace
workspace_1 = record { events = empty_ledger; runs = started_file }

process_and_trace-traceable_example :
    (after : LedgerFile) × (process_and_trace runtime_1 "events.ndjson" none batch
        (context context_1)
        workspace_1
      ≡ (
        ok (record {
          result = result_1;
          trace_entry_id = some (str (entry_id (next_sequence started_sound.entries)));
        }),
        record { events = after_1; runs = after },
      ))
    × ((o : CandidateEventOutcome) (id : String)
        → Memᴰ o (outcomes_of result_1.event_outcomes)
        → o.outcome ≡ accepted
        → o.event_id ≡ some id
        → stripped id ≡ some id
        → (trace : Json) × (resolve_event_trace id after ≡ ok (some trace)))
process_and_trace-traceable_example =
    process_and_trace-traceable runtime_1 "events.ndjson" none batch context_1 workspace_1 result_1
      after_1 processed started_sound refl refl refl
