-- ===== src/Processing/Step.antt =====
-- One turn of the loop of runtime/processing.py: what it persists, and what it leaves alone.
use deterministic_audit_runt.Prelude.{◌≡◌, refl, ℕ, [], Bool, true, false, none, some, sym}
use deterministic_audit_runt.Errors.{Result, ok, err, Error, is_store_error, type_error}
use deterministic_audit_runt.Json.{Json, item, str}
use deterministic_audit_runt.EventStore.{LedgerFile, AppendResult, append_event, appended}
use deterministic_audit_runt.EventStore.Append.{IsClosed, extended}
use deterministic_audit_runt.EventStore.Answer.{
  Answer, failed, found_earlier, written, written_without_answer, append_event-Answer,
}
use deterministic_audit_runt.Validators.Issue.{ValidationResult}
use deterministic_audit_runt.Validators.Suite as Suite
use deterministic_audit_runt.Validators.Suite.Passed.{
  IsPassed, validate_event-file, validate_event-IsPassed,
}
use deterministic_audit_runt.Processing.{
  accepted, rejected, Prepared, ready, not_ready, prepare_accepted_event, Runtime, Processed,
  after_result, after_append, judge, after_validation, after_preparation, process_candidate,
  build_outcome, decline, store_issue,
}
use mathlib.Core.Path.{subst}
use deterministic_audit_runt.Processing.Types.{build_outcome}
use deterministic_audit_runt.Processing.Loop.{decline, store_issue}

module _ (runtime : Runtime) (n : ℕ) (candidate : Json) (f : LedgerFile) where
  abbrev pub with_line : Json → LedgerFile
  with_line event = extended runtime.schema_errors runtime.detect event f

  -- How a turn ends. Only an event that was prepared from the candidate and passed every validator
  -- against this ledger is persisted.
  pub data Turn (out : Result Processed × LedgerFile) : Type 0 where
    raised : (e : Error) → out.0 ≡ err e → Turn out
    declined :
        (p : Processed)
        → p.outcome.outcome ≡ rejected
        → p.outcome.index ≡ n
        → out ≡ (ok p, f)
        → Turn out
    persisted :
        (p : Processed) (event : Json)
        → p.outcome.outcome ≡ accepted
        → p.outcome.index ≡ n
        → prepare_accepted_event runtime.canonicalize candidate ≡ ok (ready event)
        → IsPassed runtime.env event f
        → out ≡ (ok p, with_line event)
        → Turn out

  module _ (event : Json)
      (prepared : prepare_accepted_event runtime.canonicalize candidate ≡ ok (ready event))
      (passed : IsPassed runtime.env event f) where
    accepting-Turn :
        (r : AppendResult) (m : Result Json)
        → item "audit_id" event ≡ m
        → Turn (after_result n event r appended, with_line event)
    unfolding after_result build_outcome
    accepting-Turn r (err e) i = raised e (rw (after_result, i) refl)
    accepting-Turn r (ok (str name)) i =
        persisted
          (record {
            outcome = build_outcome n event accepted [] (some r);
            appended_audit = some name;
          })
          event refl refl prepared passed (rw (after_result, i) refl)
    accepting-Turn r (ok _) i = raised type_error (rw (after_result, i) refl)

    failing-Turn :
        (e : Error) (b : Bool) → is_store_error e ≡ b → Turn (after_append n event (err e, f))
    unfolding after_append build_outcome
    failing-Turn e true s =
        declined (decline n event (store_issue "append_failed") none) refl refl
          (rw (after_append, s) refl)
    failing-Turn e false s = raised e (rw (after_append, s) refl)

    after_append-Turn :
        (out : Result AppendResult × LedgerFile)
        → Answer runtime.schema_errors runtime.detect event f out
        → Turn (after_append n event out)
    unfolding after_append after_result build_outcome
    after_append-Turn out (failed e q) = rw q (failing-Turn e (is_store_error e) refl)
    after_append-Turn out (found_earlier r o q) =
        declined (decline n event (store_issue "append_not_persisted") (some r)) refl refl
          (rw (q, o) refl)
    after_append-Turn out (written r o q) = rw q (
        subst (λ v. Turn (after_result n event r v, with_line event)) (sym o)
          (accepting-Turn r (item "audit_id" event) refl))
    after_append-Turn out (written_without_answer e s q) = raised e (rw (q, s) refl)

  judge-Turn :
      (event : Json) (result : ValidationResult) (b : Bool)
      → IsClosed f
      → prepare_accepted_event runtime.canonicalize candidate ≡ ok (ready event)
      → (Suite.validate_event runtime.env event f).0 ≡ ok result
      → result.is_valid ≡ b
      → Turn (judge runtime n event f b result.issues)
  unfolding judge build_outcome
  judge-Turn event result false c p v b =
      declined (decline n event result.issues none) refl refl refl
  judge-Turn event result true c p v b =
      after_append-Turn event p (validate_event-IsPassed runtime.env event f c.sound v b)
        (append_event runtime.schema_errors runtime.detect event f)
        (append_event-Answer runtime.schema_errors runtime.detect event f c)

  validation-Turn :
      (event : Json) (v : Result ValidationResult)
      → IsClosed f
      → prepare_accepted_event runtime.canonicalize candidate ≡ ok (ready event)
      → (Suite.validate_event runtime.env event f).0 ≡ v
      → Turn (after_validation runtime n event (v, f))
  unfolding after_validation
  validation-Turn event (err e) c p v = raised e refl
  validation-Turn event (ok result) c p v = judge-Turn event result result.is_valid c p v refl

  preparation-Turn :
      (prepared : Result Prepared)
      → IsClosed f
      → prepare_accepted_event runtime.canonicalize candidate ≡ prepared
      → Turn (after_preparation runtime n candidate f prepared)
  unfolding after_preparation build_outcome
  preparation-Turn (err e) c p = raised e refl
  preparation-Turn (ok (not_ready issues)) c p =
      declined (decline n candidate issues none) refl refl refl
  preparation-Turn (ok (ready event)) c p =
      subst
        (λ g.
          Turn (after_validation runtime n event ((Suite.validate_event runtime.env event f).0, g)))
        (sym (validate_event-file runtime.env event f c.sound))
        (validation-Turn event (Suite.validate_event runtime.env event f).0 c p refl)

  -- A turn on a closed ledger raises; or rejects the candidate and leaves the ledger as it is; or
  -- accepts it, and then the event was prepared from the candidate, every validator of the suite ran
  -- on it against this ledger and found nothing, and the ledger has exactly its line more.
  pub process_candidate-Turn : IsClosed f → Turn (process_candidate runtime n candidate f)
  unfolding process_candidate
  process_candidate-Turn c =
      preparation-Turn (prepare_accepted_event runtime.canonicalize candidate) c refl
