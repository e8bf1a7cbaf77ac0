-- ===== src/RunLedger/Forensic.antt =====
-- All events of a candidate: resolve_candidate_forensic_trace of runtime/run_ledger.py.
use deterministic_audit_runt.Errors.{Result, ok, ◌>>=◌}
use deterministic_audit_runt.Prelude.{
  ℕ, ◌+◌, String, Bool, true, false, ◌&&◌, Option, none, some, List, [], ◌∷◌, ◌++◌, length,
  if◌then◌else◌,
}
use deterministic_audit_runt.Prelude.Codes.{codes}
use deterministic_audit_runt.RunLedger.Entities.{sequence_le}
use deterministic_audit_runt.Json.{Json, get, get_default, arr, str, nil}
use deterministic_audit_runt.RunLedger.Traces.{refs_of}
use deterministic_audit_runt.RunLedger.File.{read_entries}
use deterministic_audit_runt.Json.Canonical.{equals}
use deterministic_audit_runt.RunLedger.Listing.{for_executions}
use deterministic_audit_runt.Prelude.Sort.{sort}
use deterministic_audit_runt.EventStore.{LedgerFile}

-- An event of the candidate, in its execution; rejected ones have their issue codes.
pub record CandidateEvent : Type 0 where
  pub event_id : Json
  pub event_type : Json
  pub is_accepted : Bool
  pub issue_codes : Option Json
  pub sequence : Json
  pub run_id : Json
  pub task_id : Json
  pub worker_role : Json

abbrev pub codes_if_rejected : Bool → Json → Option Json
codes_if_rejected true codes = none
codes_if_rejected false codes = some codes

-- The record of one event.
unfoldable pub candidate_event : Bool → Json → Json → Result CandidateEvent
unfolding get get_default
candidate_event is_accepted entry event_ref = do
  event_id ← get "event_id" event_ref
  event_type ← get "event_type" event_ref
  codes ← get_default "issue_codes" (arr nil) event_ref
  sequence ← get "sequence" entry
  run_id ← get "run_id" entry
  task_id ← get "task_id" entry
  worker_role ← get "worker_role" entry
  ok (record {
    event_id = event_id;
    event_type = event_type;
    is_accepted = is_accepted;
    issue_codes = codes_if_rejected is_accepted codes;
    sequence = sequence;
    run_id = run_id;
    task_id = task_id;
    worker_role = worker_role;
  })

-- The events of the candidate in one list of an entry.
unfoldable pub candidate_events : Bool → String → Json → List Json → Result (List CandidateEvent)
unfolding get equals candidate_event
candidate_events is_accepted candidate_id entry [] = ok []
candidate_events is_accepted candidate_id entry (event_ref ∷ refs) = do
  kind ← get "entity_type" event_ref
  id ← get "entity_id" event_ref
  let rest = candidate_events is_accepted candidate_id entry refs
  if equals kind (str "candidate") && equals id (str candidate_id)
      then (do
        event ← candidate_event is_accepted entry event_ref
        others ← rest
        ok (event ∷ others))
      else rest

-- all_events with the two counts.
pub record ForensicTrace : Type 0 where
  pub all_events : List CandidateEvent
  pub accepted_count : ℕ
  pub rejected_count : ℕ

unfoldable pub add_execution : String → Json → ForensicTrace → Result ForensicTrace
unfolding refs_of candidate_events
add_execution candidate_id entry t = do
  accepted ← refs_of "accepted_events" entry
  taken ← candidate_events true candidate_id entry accepted
  rejected ← refs_of "rejected_events" entry
  refused ← candidate_events false candidate_id entry rejected
  ok (record {
    all_events = t.all_events ++ taken ++ refused;
    accepted_count = t.accepted_count + length taken;
    rejected_count = t.rejected_count + length refused;
  })

-- The order of the sequences, which are ints in the entries that this ledger writes.
unfoldable pub event_le : CandidateEvent → CandidateEvent → Bool
event_le a b = sequence_le (some a.sequence) (some b.sequence)

-- `resolve_candidate_forensic_trace`, without acceptance_rate, which is the float quotient of
-- accepted_count and the sum of the counts, or 0.0 where the sum is 0.
unfoldable pub resolve_candidate_forensic_trace :
    String → String → LedgerFile → Result ForensicTrace
unfolding read_entries for_executions add_execution sort event_le
resolve_candidate_forensic_trace audit_id candidate_id file = do
  entries ← read_entries file
  t ←
      for_executions (add_execution candidate_id) audit_id entries
        (record { all_events = []; accepted_count = 0; rejected_count = 0 })
  ok (record t { all_events = sort event_le t.all_events })
