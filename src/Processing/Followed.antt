-- ===== src/Processing/Followed.antt =====
-- A batch with a trace context: what process_candidate_events of runtime/processing.py records of it.
use deterministic_audit_runt.Errors.{Result, ok, err}
use deterministic_audit_runt.Processing.{
  context, outcomes_of, process_and_trace, Runtime, Processed, after_context, after_alignment,
  after_batch, with_entry, ProcessingResult, coerce_trace_context, process_candidate_events,
  Workspace, CandidateEventOutcome, accepted, validate_batch_audit_alignment,
}
use deterministic_audit_runt.Prelude.{String, ◌≡◌, refl, true, Option, some, List, [], ◌∷◌, All}
use mathlib.Core.Path.{ap, subst}
use mathlib.Core.List.{Memᴰ}
use deterministic_audit_runt.Processing.Whole.{
  process_and_trace, outcomes_of, after_context, after_batch, with_entry, Workspace,
}
use deterministic_audit_runt.EventStore.Lines.{OkAll}
use deterministic_audit_runt.Processing.Loop.{Runtime, Processed}
use deterministic_audit_runt.Json.{Json, str}
use deterministic_audit_runt.Processing.Traceable.{LineIsNumber, record_trace_entry-traceable}
use deterministic_audit_runt.Processing.Batch.{
  after_alignment, ProcessingResult, process_candidate_events, validate_batch_audit_alignment,
}
use deterministic_audit_runt.EventStore.{LedgerFile}
use deterministic_audit_runt.Processing.Trace.{coerce_trace_context}
use deterministic_audit_runt.RunLedger.{
  WorkerExecutionTraceContext, is_some, entry_id, next_sequence, stripped, resolve_event_trace,
}
use deterministic_audit_runt.RunLedger.Reach.{IsSound}
use deterministic_audit_runt.Processing.Types.{CandidateEventOutcome, accepted}
use deterministic_audit_runt.Processing.Numbers.{process_candidate_events-AllNumbered}

OkAll_of_ok {ℓ κ} :
    {V : Type ℓ} (P : V → Type κ) (m : Result V) (v : V) → OkAll P m → m ≡ ok v → P v
OkAll_of_ok P m v h q = subst (OkAll P) q h

outcomes_of-LineIsNumber :
    (ps : List Processed)
    → All (λ p. LineIsNumber p.outcome.append_result) ps
    → All (λ o. LineIsNumber o.append_result) (outcomes_of ps)
unfolding outcomes_of
outcomes_of-LineIsNumber [] h = tt
outcomes_of-LineIsNumber (p ∷ ps) (h, hs) = (h, outcomes_of-LineIsNumber ps hs)

module _ (runtime : Runtime) (requested : Option String) (candidates : List Json) where
  alignment_passed :
      (f g : LedgerFile) (result : ProcessingResult) (m : Result (Unit {0}))
      → after_alignment runtime requested candidates f m ≡ (ok result, g)
      → m ≡ ok tt
  unfolding after_alignment
  alignment_passed f g result (err e) h = cc
  alignment_passed f g result (ok u) h = refl

-- If the batch succeeds without its trace, and the run ledger is one that the code has written, then
-- with a trace context that has both digests the call succeeds too: its result and the event ledger
-- are the same, its trace_entry_id is the id with the next number, and each accepted outcome, under an
-- event id without white space around it, has a trace in the run ledger. The redaction is asked to
-- leave the text "worker_execution" alone.
pub process_and_trace-traceable :
    (runtime : Runtime) (path : String) (requested : Option String) (candidates : List Json)
    (c : WorkerExecutionTraceContext) (w : Workspace) (result : ProcessingResult) (g : LedgerFile)
    → process_candidate_events runtime requested candidates w.events ≡ (ok result, g)
    → (s : IsSound runtime.detect w.runs) → is_some c.input_digest ≡ true
    → is_some c.output_digest ≡ true
    → runtime.detect "worker_execution" "entry_type" ≡ "worker_execution"
    → (after : LedgerFile) × (process_and_trace runtime path requested candidates (context c) w ≡ (
      ok (record {
        result = result;
        trace_entry_id = some (str (entry_id (next_sequence s.entries)));
      }),
      record { events = g; runs = after },
    ))
      × ((o : CandidateEventOutcome) (id : String)
          → Memᴰ o (outcomes_of result.event_outcomes)
          → o.outcome ≡ accepted
          → o.event_id ≡ some id
          → stripped id ≡ some id
          → (trace : Json) × (resolve_event_trace id after ≡ ok (some trace)))
unfolding process_and_trace after_context after_batch with_entry coerce_trace_context
    process_candidate_events
process_and_trace-traceable runtime path requested candidates c w result g done s h k kept =
    let numbered =
      OkAll_of_ok _ (process_candidate_events runtime requested candidates w.events).0 result
        (process_candidate_events-AllNumbered runtime requested candidates w.events)
        (ap (λ x. x.0) done) in
    let (after, recorded, traced) =
      record_trace_entry-traceable runtime.detect path c (outcomes_of result.event_outcomes)
        result.total_candidate_events result.accepted_events result.rejected_events w.runs s
        (outcomes_of-LineIsNumber result.event_outcomes numbered) h k kept in
    let aligned =
      alignment_passed runtime requested candidates w.events g result
        (validate_batch_audit_alignment requested candidates) done in
    (
      after,
      rw (aligned, coerce_trace_context, after_context, done, after_batch, recorded, with_entry)
          refl,
      traced,
    )
