-- ===== src/Processing/Numbers.antt =====
-- The line numbers in the outcomes of a batch.
use deterministic_audit_runt.Validators.Suite as Suite
use deterministic_audit_runt.EventStore.{duplicate, appended, LedgerFile, recover_ledger}
use deterministic_audit_runt.Errors.{Result, ok, err, is_store_error, Error}
use deterministic_audit_runt.Prelude.{
  ℕ, ◌+◌, ◌≤◌, Bool, true, false, List, [], ◌∷◌, All, if◌then◌else◌, String, Option,
}
use deterministic_audit_runt.Processing.Loop.{
  after_append, Runtime, Processed, after_result, process_from, after_preparation, judge,
  after_validation, process_candidate, proceed,
}
use deterministic_audit_runt.Processing.Traceable.{LineIsNumber}
use deterministic_audit_runt.Processing.Types.{
  build_outcome, prepare_accepted_event, Prepared, not_ready, ready,
}
use deterministic_audit_runt.EventStore.Lines.{OkAll, OkAll-bind, append_event-HasLine, OkAll-then}
use deterministic_audit_runt.EventStore.{LedgerFile, AppendResult, AppendOutcome, append_event}
use deterministic_audit_runt.Json.{Json, item}
use deterministic_audit_runt.Validators.Issue.{ValidationIssue, ValidationResult}
use deterministic_audit_runt.Projector.{as_key}
use deterministic_audit_runt.Processing.Batch.{
  process_candidate_events, after_alignment, after_resolution, ProcessingResult, after_recovery,
  finish, result_for, resolve_projection_audit_id, validate_batch_audit_alignment,
  appended_audit_ids, project_accepted,
}

abbrev HasNumber : Processed → Type 0
HasNumber p = LineIsNumber p.outcome.append_result

either-HasNumber :
    (b : Bool) (p : Processed) (e : Error)
    → HasNumber p
    → OkAll HasNumber (if b then ok p else err e)
either-HasNumber true p e h = h
either-HasNumber false p e h = tt

after_result-HasNumber :
    (n : ℕ) (event : Json) (r : AppendResult) (o : AppendOutcome)
    → 1 ≤ r.line_number
    → OkAll HasNumber (after_result n event r o)
unfolding after_result build_outcome
after_result-HasNumber n event r duplicate h = h
after_result-HasNumber n event r appended h =
    OkAll-then HasNumber (item "audit_id" event) _
      (λ audit_id. OkAll-then HasNumber (as_key audit_id) _ (λ name. h))

after_append-HasNumber :
    (n : ℕ) (event : Json) (m : Result AppendResult) (f : LedgerFile)
    → OkAll (λ r. 1 ≤ r.line_number) m
    → OkAll HasNumber (after_append n event (m, f)).0
unfolding after_append build_outcome
after_append-HasNumber n event (err e) f h = either-HasNumber (is_store_error e) _ e tt
after_append-HasNumber n event (ok r) f h = after_result-HasNumber n event r r.outcome h

module _ (runtime : Runtime) where
  judge-HasNumber :
      (n : ℕ) (event : Json) (f : LedgerFile) (b : Bool) (issues : List ValidationIssue)
      → OkAll HasNumber (judge runtime n event f b issues).0
  unfolding judge build_outcome
  judge-HasNumber n event f false issues = tt
  judge-HasNumber n event f true issues =
      let out = append_event runtime.schema_errors runtime.detect event f in
      after_append-HasNumber n event out.0 out.1
        (append_event-HasLine runtime.schema_errors runtime.detect event f)

  validation-HasNumber :
      (n : ℕ) (event : Json) (v : Result ValidationResult) (f : LedgerFile)
      → OkAll HasNumber (after_validation runtime n event (v, f)).0
  unfolding after_validation
  validation-HasNumber n event (err e) f = tt
  validation-HasNumber n event (ok result) f =
      judge-HasNumber n event f result.is_valid result.issues

  preparation-HasNumber :
      (n : ℕ) (candidate : Json) (f : LedgerFile) (p : Result Prepared)
      → OkAll HasNumber (after_preparation runtime n candidate f p).0
  unfolding after_preparation build_outcome
  preparation-HasNumber n candidate f (err e) = tt
  preparation-HasNumber n candidate f (ok (not_ready issues)) = tt
  preparation-HasNumber n candidate f (ok (ready event)) =
      let out = Suite.validate_event runtime.env event f in validation-HasNumber n event out.0 out.1

  proceed-HasNumber :
      (out : Result Processed × LedgerFile) (k : LedgerFile → Result (List Processed) × LedgerFile)
      → OkAll HasNumber out.0
      → ((g : LedgerFile) → OkAll (All HasNumber) (k g).0)
      → OkAll (All HasNumber) (proceed runtime out k).0
  proceed-HasNumber (err e, f) k h hs = tt
  proceed-HasNumber (ok p, f) k h hs =
      OkAll-bind (All HasNumber) (All HasNumber) (k f).0 _ (hs f) (λ ps all. (h, all))

  -- In the outcomes of the loop, each line number of an append counts from 1.
  pub process_from-HasNumber :
      (n : ℕ) (candidates : List Json) (f : LedgerFile)
      → OkAll (All HasNumber) (process_from runtime n candidates f).0
  unfolding process_from process_candidate
  process_from-HasNumber n [] f = tt
  process_from-HasNumber n (candidate ∷ candidates) f =
      proceed-HasNumber (process_candidate runtime n candidate f)
        (process_from runtime (n + 1) candidates)
        (preparation-HasNumber n candidate f
          (prepare_accepted_event runtime.canonicalize candidate))
        (λ g. process_from-HasNumber (n + 1) candidates g)

module _ (runtime : Runtime) (requested : Option String) (candidates : List Json) where
  abbrev AllNumbered : ProcessingResult → Type 0
  AllNumbered result = All HasNumber result.event_outcomes

  resolution-AllNumbered :
      (ps : List Processed) (f : LedgerFile) (r : Result (Option String))
      → All HasNumber ps
      → OkAll AllNumbered (after_resolution runtime requested candidates ps f r).0
  unfolding after_resolution result_for
  resolution-AllNumbered ps f (err e) h = tt
  resolution-AllNumbered ps f (ok audit_id) h =
      OkAll-then AllNumbered (project_accepted runtime audit_id (appended_audit_ids ps) f).0 _
        (λ projection. h)

  finish-AllNumbered :
      (m : Result (List Processed)) (f : LedgerFile)
      → OkAll (All HasNumber) m
      → OkAll AllNumbered (finish runtime requested candidates (m, f)).0
  unfolding finish
  finish-AllNumbered (err e) f h = tt
  finish-AllNumbered (ok ps) f h =
      resolution-AllNumbered ps f (resolve_projection_audit_id requested (appended_audit_ids ps)) h

  recovery-AllNumbered :
      (m : Result (Unit {0})) (f : LedgerFile)
      → OkAll AllNumbered (after_recovery runtime requested candidates (m, f)).0
  unfolding after_recovery
  recovery-AllNumbered (err e) f = tt
  recovery-AllNumbered (ok u) f =
      let out = process_from runtime 0 candidates f in
      finish-AllNumbered out.0 out.1 (process_from-HasNumber runtime 0 candidates f)

  alignment-AllNumbered :
      (f : LedgerFile) (m : Result (Unit {0}))
      → OkAll AllNumbered (after_alignment runtime requested candidates f m).0
  unfolding after_alignment
  alignment-AllNumbered f (err e) = tt
  alignment-AllNumbered f (ok u) = let out = recover_ledger f in recovery-AllNumbered out.0 out.1

  -- In the outcomes of a batch, each line number of an append counts from 1.
  pub process_candidate_events-AllNumbered :
      (f : LedgerFile)
      → OkAll AllNumbered (process_candidate_events runtime requested candidates f).0
  unfolding process_candidate_events
  process_candidate_events-AllNumbered f =
      alignment-AllNumbered f (validate_batch_audit_alignment requested candidates)
