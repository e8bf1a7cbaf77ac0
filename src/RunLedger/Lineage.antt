-- ===== src/RunLedger/Lineage.antt =====
-- The issues that refer to an observation: _find_issues_referencing_observation of
-- runtime/run_ledger.py.
use deterministic_audit_runt.Prelude.{
  String, Bool, false, not, ◌&&◌, ◌||◌, Option, List, [], ◌∷◌, ◌++◌, if◌then◌else◌,
}
use deterministic_audit_runt.Errors.{Result, ok, err, ◌>>=◌, ledger_error, type_error}
use deterministic_audit_runt.Json.{Json, str, arr, nil, items, get, get_default, is_falsy, obj}
use deterministic_audit_runt.Json.Canonical.{equals}
use deterministic_audit_runt.EventStore.{LedgerFile}
use deterministic_audit_runt.RunLedger.File.{read_entries, field_is}
use deterministic_audit_runt.RunLedger.Traces.{refs_of}
use deterministic_audit_runt.RunLedger.Entities.{resolve_entity_trace}

pub record IssueReference : Type 0 where
  pub issue_id : Json
  pub issue_trace : Option Json
  pub evidence_observation_ids : Json

-- `value in values`
unfoldable pub json_in : Json → List Json → Bool
unfolding equals
json_in v [] = false
json_in v (w ∷ ws) = equals w v || json_in v ws

-- `isinstance(evidence, list) and observation_id in evidence`
abbrev pub names_observation : Json → Json → Bool
names_observation observation_id (arr vs) = json_in observation_id (items vs)
names_observation observation_id _ = false

-- `resolve_entity_trace("issue", issue_id, ...)`, which refuses an id that is no text.
unfoldable pub issue_trace_of : Json → LedgerFile → Result (Option Json)
unfolding resolve_entity_trace
issue_trace_of (str id) file = resolve_entity_trace "issue" id ("issue.proposed" ∷ []) file
issue_trace_of v file = err ledger_error

-- What stands in a set or is the key of a dict: a list or a dict is refused.
unfoldable pub hashable : Json → Result Json
hashable (arr vs) = err type_error
hashable (obj fs) = err type_error
hashable v = ok v

-- Whether an event is an issue that was not met before and names the observation.
unfoldable pub is_reference : Json → List Json → Json → Result Bool
unfolding get get_default equals is_falsy json_in hashable
is_reference observation_id seen event_ref = do
  event_type ← get "event_type" event_ref
  issue_id ← get "entity_id" event_ref
  evidence ← get_default "evidence_observation_ids" (arr nil) event_ref
  if equals event_type (str "issue.proposed") && not (is_falsy issue_id)
      then (do
        id ← hashable issue_id
        ok (not (json_in id seen) && names_observation observation_id evidence))
      else ok false

-- The inner loop: the references, and the ids that were met.
unfoldable pub references_in :
    LedgerFile → Json → List Json → List Json → Result (List IssueReference × List Json)
unfolding is_reference get get_default issue_trace_of
references_in file observation_id seen [] = ok ([], seen)
references_in file observation_id seen (event_ref ∷ refs) = do
  wanted ← is_reference observation_id seen event_ref
  issue_id ← get "entity_id" event_ref
  evidence ← get_default "evidence_observation_ids" (arr nil) event_ref
  let skipped = references_in file observation_id seen refs
  let taken = references_in file observation_id (issue_id ∷ seen) refs
  if wanted
      then (do
        trace ← issue_trace_of issue_id file
        (others, met) ← taken
        ok (
          record { issue_id = issue_id; issue_trace = trace; evidence_observation_ids = evidence }
              ∷ others,
          met,
        ))
      else skipped

unfoldable pub references_of :
    LedgerFile → String → Json → List Json → List Json → Result (List IssueReference)
unfolding field_is refs_of references_in
references_of file audit_id observation_id seen [] = ok []
references_of file audit_id observation_id seen (entry ∷ entries) =
    if field_is "entry_type" "worker_execution" entry && field_is "audit_id" audit_id entry
    then (do
      accepted ← refs_of "accepted_events" entry
      (here, met) ← references_in file observation_id seen accepted
      others ← references_of file audit_id observation_id met entries
      ok (here ++ others))
    else references_of file audit_id observation_id seen entries

-- `_find_issues_referencing_observation`
unfoldable pub find_issues_referencing_observation :
    String → Json → LedgerFile → Result (List IssueReference)
unfolding read_entries references_of
find_issues_referencing_observation audit_id observation_id file = do
  entries ← read_entries file
  references_of file audit_id observation_id [] entries
