-- ===== src/Processing/Loop.antt =====
-- The loop of `process_candidate_events` in runtime/processing.py, one stage for each `continue`.
use deterministic_audit_runt.Prelude.{
  ℕ, ◌+◌, Bool, true, false, Option, none, some, List, [], ◌∷◌, String, if◌then◌else◌,
}
use deterministic_audit_runt.Errors.{Result, ok, err, ◌>>=◌, is_store_error}
use deterministic_audit_runt.Json.{Json, item}
use deterministic_audit_runt.EventStore.{
  LedgerFile, AppendResult, AppendOutcome, appended, duplicate, append_event,
}
use deterministic_audit_runt.Projector.{as_key}
use deterministic_audit_runt.Validators.Issue.{ValidationIssue, ValidationResult}
use deterministic_audit_runt.Validators.Suite.{Environment}
use deterministic_audit_runt.Validators.Suite as Suite
use deterministic_audit_runt.Processing.Types.{
  CandidateEventOutcome, accepted, rejected, build_outcome, Prepared, ready, not_ready,
  prepare_accepted_event,
}

-- The validators, and what the store takes from outside.
pub record Runtime : Type 0 where
  pub env : Environment
  pub canonicalize : Json → Result Json
  pub schema_errors : Json → List String
  pub detect : String → String → String

-- An outcome, with the audit that it adds to `appended_audit_ids`.
pub record Processed : Type 0 where
  pub outcome : CandidateEventOutcome
  pub appended_audit : Option String

abbrev pub decline : ℕ → Json → List ValidationIssue → Option AppendResult → Processed
decline n event issues result = record {
  outcome = build_outcome n event rejected issues result;
  appended_audit = none;
}

abbrev pub store_issue : String → List ValidationIssue
store_issue code =
    record { validator = "event_store"; code = code; rule_id = none; path = none } ∷ []

-- The audits are a set of texts here: an audit_id of another kind, which the source adds to its set if
-- it is hashable, ends in an error.
unfoldable pub after_result : ℕ → Json → AppendResult → AppendOutcome → Result Processed
unfolding build_outcome
after_result n event result duplicate =
    ok (decline n event (store_issue "append_not_persisted") (some result))
after_result n event result appended = do
  audit_id ← item "audit_id" event
  name ← as_key audit_id
  ok (record {
    outcome = build_outcome n event accepted [] (some result);
    appended_audit = some name;
  })

-- Only an EventStoreError is caught.
unfoldable pub after_append :
    ℕ → Json → Result AppendResult × LedgerFile → Result Processed × LedgerFile
unfolding after_result build_outcome
after_append n event (err e, f) =
    (if is_store_error e then ok (decline n event (store_issue "append_failed") none) else err e, f)
after_append n event (ok result, f) = (after_result n event result result.outcome, f)

module _ (runtime : Runtime) where
  unfoldable pub judge :
      ℕ → Json → LedgerFile → Bool → List ValidationIssue → Result Processed × LedgerFile
  unfolding after_append build_outcome
  judge n event f false issues = (ok (decline n event issues none), f)
  judge n event f true issues =
      after_append n event (append_event runtime.schema_errors runtime.detect event f)

  unfoldable pub after_validation :
      ℕ → Json → Result ValidationResult × LedgerFile → Result Processed × LedgerFile
  unfolding judge
  after_validation n event (err e, f) = (err e, f)
  after_validation n event (ok result, f) = judge n event f result.is_valid result.issues

  unfoldable pub after_preparation :
      ℕ → Json → LedgerFile → Result Prepared → Result Processed × LedgerFile
  unfolding after_validation build_outcome
  after_preparation n candidate f (err e) = (err e, f)
  after_preparation n candidate f (ok (not_ready issues)) =
      (ok (decline n candidate issues none), f)
  after_preparation n candidate f (ok (ready event)) =
      after_validation n event (Suite.validate_event runtime.env event f)

  -- One turn of the loop.
  unfoldable pub process_candidate : ℕ → Json → LedgerFile → Result Processed × LedgerFile
  unfolding after_preparation prepare_accepted_event
  process_candidate n candidate f =
      after_preparation n candidate f (prepare_accepted_event runtime.canonicalize candidate)

  abbrev pub proceed :
      Result Processed × LedgerFile
      → (LedgerFile → Result (List Processed) × LedgerFile)
      → Result (List Processed) × LedgerFile
  proceed (err e, f) k = (err e, f)
  proceed (ok p, f) k = let (rest, f') = k f in (rest >>= λ ps. ok (p ∷ ps), f')

  unfoldable pub process_from : ℕ → List Json → LedgerFile → Result (List Processed) × LedgerFile
  unfolding process_candidate
  process_from n [] f = (ok [], f)
  process_from n (candidate ∷ candidates) f =
      proceed (process_candidate n candidate f) (process_from (n + 1) candidates)
