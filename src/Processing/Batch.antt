-- ===== src/Processing/Batch.antt =====
-- `process_candidate_events` and `recover_runtime_state` of runtime/processing.py.
use deterministic_audit_runt.Prelude.{
  ℕ, ◌-◌, suc, Bool, true, false, Option, none, some, List, [], ◌∷◌, String, length, ltb, elem,
  ◌==◌, if◌then◌else◌,
}
use deterministic_audit_runt.Errors.{Result, ok, err, ◌>>=◌, processing_error}
use deterministic_audit_runt.Json.{Json}
use deterministic_audit_runt.EventStore.{LedgerFile, recover_ledger}
use deterministic_audit_runt.Projector.{Built, build_state}
use deterministic_audit_runt.Processing.Types.{accepted, rejected, read_string_field}
use deterministic_audit_runt.Processing.Loop.{Runtime, Processed, process_from}

-- Sets of texts as lists without repetitions.
abbrev pub add_id : Option String → List String → List String
add_id none ids = ids
add_id (some id) ids = if elem id ids then ids else id ∷ ids

unfoldable pub batch_audit_ids : List Json → List String
unfolding read_string_field
batch_audit_ids [] = []
batch_audit_ids (candidate ∷ rest) =
    add_id (read_string_field "audit_id" candidate) (batch_audit_ids rest)

abbrev pub all_are : String → List String → Bool
all_are id [] = true
all_are id (other ∷ ids) = let rest = all_are id ids in if other == id then rest else false

-- `_validate_batch_audit_alignment`
unfoldable pub validate_batch_audit_alignment : Option String → List Json → Result (Unit {0})
unfolding batch_audit_ids
validate_batch_audit_alignment (some requested) candidates =
    if all_are requested (batch_audit_ids candidates) then ok tt else err processing_error
validate_batch_audit_alignment none candidates =
    if ltb 1 (length (batch_audit_ids candidates)) then err processing_error else ok tt

unfoldable pub appended_audit_ids : List Processed → List String
appended_audit_ids [] = []
appended_audit_ids (p ∷ ps) = add_id p.appended_audit (appended_audit_ids ps)

-- `_resolve_projection_audit_id`
unfoldable pub resolve_projection_audit_id : Option String → List String → Result (Option String)
resolve_projection_audit_id (some requested) ids = ok (some requested)
resolve_projection_audit_id none [] = ok none
resolve_projection_audit_id none (id ∷ []) = ok (some id)
resolve_projection_audit_id none _ = err processing_error

-- The part of a ProjectionResult that does not name files.
pub record Projection : Type 0 where
  pub audit_id : Option String
  pub built : Built

-- `_write_projection_atomically`: the audit named by the state, where none was asked for.
abbrev pub audit_named_by : Json → Option String
audit_named_by audit = elim (read_string_field "id" audit) [
  | none ↦ none
  | some id ↦ if id == "" then none else some id
]

abbrev pub projection_of : Option String → Built → Projection
projection_of (some id) built = record { audit_id = some id; built = built }
projection_of none built = record { audit_id = audit_named_by built.state.audit; built = built }

-- Any exception of the projection is raised as a CandidateEventProcessingError.
abbrev pub rebuilt : Option String → Result Built × LedgerFile → Result Projection × LedgerFile
rebuilt audit_id (err e, f) = (err processing_error, f)
rebuilt audit_id (ok built, f) = (ok (projection_of audit_id built), f)

module _ (runtime : Runtime) where
  unfoldable pub after_recovered :
      Option String → Result (Unit {0}) × LedgerFile → Result Projection × LedgerFile
  unfolding build_state read_string_field
  after_recovered audit_id (err e, f) = (err e, f)
  after_recovered audit_id (ok u, f) =
      rebuilt audit_id (build_state runtime.env.state_errors audit_id f)

  unfoldable pub recover_runtime_state : Option String → LedgerFile → Result Projection × LedgerFile
  unfolding recover_ledger after_recovered
  recover_runtime_state audit_id f = after_recovered audit_id (recover_ledger f)

  -- The projection after the loop.
  unfoldable pub project_accepted :
      Option String → List String → LedgerFile → Result (Option Projection) × LedgerFile
  unfolding recover_runtime_state
  project_accepted none ids f = (ok none, f)
  project_accepted (some id) [] f = (ok none, f)
  project_accepted (some id) (appended ∷ ids) f =
      let (r, f') = recover_runtime_state (some id) f in (r >>= λ p. ok (some p), f')

unfoldable pub count_accepted : List Processed → ℕ
count_accepted [] = 0
count_accepted (p ∷ ps) = elim p.outcome.outcome [
  | accepted ↦ suc (count_accepted ps)
  | rejected ↦ count_accepted ps
]

pub record ProcessingResult : Type 0 where
  pub audit_id : Option String
  pub total_candidate_events : ℕ
  pub accepted_events : ℕ
  pub rejected_events : ℕ
  pub projection : Option Projection
  pub event_outcomes : List Processed

-- Python's subtraction: more events are never accepted than there are candidates.
unfoldable pub result_for :
    List Json → Option String → List Processed → Option Projection → ProcessingResult
unfolding count_accepted
result_for candidates audit_id outcomes projection = record {
  audit_id = audit_id;
  total_candidate_events = length candidates;
  accepted_events = count_accepted outcomes;
  rejected_events = length candidates - count_accepted outcomes;
  projection = projection;
  event_outcomes = outcomes;
}

module _ (runtime : Runtime) (requested : Option String) (candidates : List Json) where
  unfoldable pub after_resolution :
      List Processed → LedgerFile → Result (Option String) → Result ProcessingResult × LedgerFile
  unfolding appended_audit_ids project_accepted result_for
  after_resolution outcomes f (err e) = (err e, f)
  after_resolution outcomes f (ok audit_id) =
      let (r, f') = project_accepted runtime audit_id (appended_audit_ids outcomes) f in
      (r >>= λ projection. ok (result_for candidates audit_id outcomes projection), f')

  -- After the loop.
  unfoldable pub finish :
      Result (List Processed) × LedgerFile → Result ProcessingResult × LedgerFile
  unfolding appended_audit_ids resolve_projection_audit_id after_resolution
  finish (err e, f) = (err e, f)
  finish (ok outcomes, f) =
      after_resolution outcomes f
        (resolve_projection_audit_id requested (appended_audit_ids outcomes))

  -- After the ledger is recovered, which raises outside the `try`.
  unfoldable pub after_recovery :
      Result (Unit {0}) × LedgerFile → Result ProcessingResult × LedgerFile
  unfolding finish process_from
  after_recovery (err e, f) = (err e, f)
  after_recovery (ok u, f) = finish (process_from runtime 0 candidates f)

  unfoldable pub after_alignment :
      LedgerFile → Result (Unit {0}) → Result ProcessingResult × LedgerFile
  unfolding recover_ledger after_recovery
  after_alignment f (err e) = (err e, f)
  after_alignment f (ok u) = after_recovery (recover_ledger f)

  unfoldable pub process_candidate_events : LedgerFile → Result ProcessingResult × LedgerFile
  unfolding validate_batch_audit_alignment after_alignment
  process_candidate_events f =
      after_alignment f (validate_batch_audit_alignment requested candidates)
