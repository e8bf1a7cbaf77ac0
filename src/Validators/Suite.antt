-- ===== src/Validators/Suite.antt =====
-- `validate_event` of runtime/validators/suite.py: the order of the validators, and which of them an
-- event reaches. Reading the ledger repairs it, so the file is passed on.
pub mod Passed
use deterministic_audit_runt.Prelude.{Bool, List, [], ◌∷◌, ◌++◌, String, is_empty, none}
use deterministic_audit_runt.Errors.{Result, ok, err, ◌>>=◌}
use deterministic_audit_runt.Json.{Json}
use deterministic_audit_runt.EventStore.{LedgerFile, StoredEvent, iter_stored_events}
use deterministic_audit_runt.Projector.{CanonicalState}
use deterministic_audit_runt.Validators.Issue.{ValidationIssue, ValidationResult}
use deterministic_audit_runt.Validators.Transition.{Rules, validate_transition}
use deterministic_audit_runt.Validators.Schema.{validate_schema}
use deterministic_audit_runt.Validators.SourceBinding.{validate_source_binding}
use deterministic_audit_runt.Validators.Duplicate.{validate_duplicate}
use deterministic_audit_runt.Validators.Contradiction.{validate_contradiction}

-- What the validators take from outside: the rules file, and the code that is not modelled.
pub record Environment : Type 0 where
  pub error_paths : Json → List (List String)
  pub fingerprint : Json → Json
  pub equivalent : Json → Json → Bool
  pub state_errors : CanonicalState → List String
  pub rules : Rules

abbrev pub result_of : List ValidationIssue → ValidationResult
result_of issues = record { is_valid = is_empty issues; issues = issues }

module _ (env : Environment) where
  -- The last three validators, whose issues are gathered.
  unfoldable pub gather : Json → LedgerFile → Result ValidationResult
  unfolding validate_source_binding validate_transition validate_contradiction
  gather event f = do
    source ← validate_source_binding event
    transition ← validate_transition env.state_errors env.rules f event
    contradiction ← validate_contradiction env.state_errors f event
    ok (result_of (source ++ (transition ++ contradiction)))

  unfoldable pub after_duplicates :
      Json → LedgerFile → List ValidationIssue → Result ValidationResult
  unfolding gather
  after_duplicates event f [] = gather event f
  after_duplicates event f (i ∷ is) = ok (result_of (i ∷ is))

  unfoldable pub against_ledger :
      Json → Result (List StoredEvent) × LedgerFile → Result ValidationResult × LedgerFile
  unfolding validate_duplicate after_duplicates
  against_ledger event (stored, f) = (
    stored >>= validate_duplicate env.fingerprint env.equivalent event >>= after_duplicates event f,
    f,
  )

  unfoldable pub after_schema :
      Json → LedgerFile → Result (List ValidationIssue) → Result ValidationResult × LedgerFile
  unfolding against_ledger
  after_schema event f (err e) = (err e, f)
  after_schema event f (ok []) = against_ledger event (iter_stored_events none f)
  after_schema event f (ok (i ∷ is)) = (ok (result_of (i ∷ is)), f)

  unfoldable pub validate_event : Json → LedgerFile → Result ValidationResult × LedgerFile
  unfolding validate_schema after_schema
  validate_event event f = after_schema event f (validate_schema env.error_paths event)
