-- ===== src/Processing/Whole.antt =====
-- process_candidate_events of runtime/processing.py with its trace_context: the batch, and the entry of
-- the run ledger behind it.
use deterministic_audit_runt.Errors.{Result, ok, err, ◌>>=◌}
use deterministic_audit_runt.Prelude.{String, Option, none, some, List, [], ◌∷◌}
use deterministic_audit_runt.EventStore.{LedgerFile}
use deterministic_audit_runt.Processing.Loop.{Runtime, Processed}
use deterministic_audit_runt.Processing.Batch.{
  ProcessingResult, validate_batch_audit_alignment, process_candidate_events,
}
use deterministic_audit_runt.Processing.Types.{CandidateEventOutcome}
use deterministic_audit_runt.Json.{Json}
use deterministic_audit_runt.RunLedger.{WorkerExecutionTraceContext}
use deterministic_audit_runt.Processing.Trace.{
  coerce_trace_context, TraceArgument, record_trace_entry,
}

-- The two files that a batch may write.
pub record Workspace : Type 0 where
  pub events : LedgerFile
  pub runs : LedgerFile

-- A CandidateEventProcessingResult.
pub record TracedResult : Type 0 where
  pub result : ProcessingResult
  pub trace_entry_id : Option Json

unfoldable pub outcomes_of : List Processed → List CandidateEventOutcome
outcomes_of [] = []
outcomes_of (p ∷ ps) = p.outcome ∷ outcomes_of ps

unfoldable pub with_entry :
    ProcessingResult → Workspace → Result (Json × LedgerFile) → Result TracedResult × Workspace
with_entry result w (err e) = (err e, w)
with_entry result w (ok (id, runs)) = (
  ok (record { result = result; trace_entry_id = some id }),
  record { events = w.events; runs = runs },
)

module _ (runtime : Runtime) (path : String) (requested : Option String)
    (candidates : List Json) where
  -- The end of process_candidate_events. A batch whose trace entry cannot be written raises, and its
  -- events stay in the ledger.
  unfoldable pub after_batch :
      Option WorkerExecutionTraceContext
      → LedgerFile
      → Result ProcessingResult × LedgerFile
      → Result TracedResult × Workspace
  unfolding outcomes_of record_trace_entry with_entry
  after_batch c runs (err e, f) = (err e, record { events = f; runs = runs })
  after_batch none runs (ok result, f) =
      (ok (record { result = result; trace_entry_id = none }), record { events = f; runs = runs })
  after_batch (some c) runs (ok result, f) =
      with_entry result (record { events = f; runs = runs })
        (record_trace_entry runtime.detect path c (outcomes_of result.event_outcomes)
          result.total_candidate_events result.accepted_events result.rejected_events runs)

  -- The body behind the two checks of the arguments.
  unfoldable pub after_context :
      Workspace → Result (Option WorkerExecutionTraceContext) → Result TracedResult × Workspace
  unfolding process_candidate_events after_batch
  after_context w (err e) = (err e, w)
  after_context w (ok c) =
      after_batch c w.runs (process_candidate_events runtime requested candidates w.events)

  -- `process_candidate_events`: the alignment is checked before the context is read.
  unfoldable pub process_and_trace : TraceArgument → Workspace → Result TracedResult × Workspace
  unfolding validate_batch_audit_alignment coerce_trace_context after_context
  process_and_trace argument w =
      after_context w
        (validate_batch_audit_alignment requested candidates >>= λ u. coerce_trace_context argument)
