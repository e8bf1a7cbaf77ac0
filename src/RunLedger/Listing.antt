-- ===== src/RunLedger/Listing.antt =====
-- The candidates of an audit: list_candidates_by_outcome and resolve_candidate_forensic_trace of
-- runtime/run_ledger.py.
use deterministic_audit_runt.Errors.{Result, ok, err, ◌>>=◌, ledger_error}
use deterministic_audit_runt.RunLedger.Candidates.{
  CandidateStatus, unknown, proposed, routed_to_verify, rejected, resolved_promoted,
}
use deterministic_audit_runt.Prelude.{
  String, Bool, false, not, ◌&&◌, ◌||◌, Option, none, some, List, [], ◌∷◌, ◌++◌, map, ◌==◌,
  if◌then◌else◌,
}
use deterministic_audit_runt.RunLedger.File.{read_entries, field_is}
use deterministic_audit_runt.Json.Canonical.{equals}
use deterministic_audit_runt.RunLedger.Traces.{refs_of}
use deterministic_audit_runt.Json.{Json, get, is_falsy, str, get_default}
use deterministic_audit_runt.EventStore.{LedgerFile}
use deterministic_audit_runt.RunLedger.Lineage.{hashable}

-- The loop over the executions of an audit, with what its body has collected. An entry that is left
-- out keeps the collection.
module _ {ℓ} {S : Type ℓ} (body : Json → S → Result S) (audit_id : String) where
  unfoldable pub for_executions : List Json → S → Result S
  unfolding field_is
  for_executions [] s = ok s
  for_executions (entry ∷ entries) s = do
    next ←
        if field_is "entry_type" "worker_execution" entry && field_is "audit_id" audit_id entry
        then body entry s
        else ok s
    for_executions entries next

-- trace_available is always True, and left out.
pub record CandidateSummary : Type 0 where
  pub candidate_id : Json
  pub candidate_type : Json
  pub outcome : CandidateStatus
  pub proposed_event_id : Json
  pub promoted_observation_id : Option Json

-- `candidate_id in candidates`
unfoldable pub is_listed : Json → List CandidateSummary → Bool
unfolding equals
is_listed id [] = false
is_listed id (c ∷ cs) = equals c.candidate_id id || is_listed id cs

-- Whether an id that is not falsy is in the dict.
unfoldable pub known_id : Json → List CandidateSummary → Result Bool
unfolding is_falsy hashable is_listed
known_id id found =
    if is_falsy id then ok false else (do key ← hashable id; ok (is_listed key found))

-- The place of a candidate that is proposed and is not in the dict yet.
unfoldable pub add_proposed :
    Json → CandidateSummary → List CandidateSummary → Result (List CandidateSummary)
unfolding equals is_falsy known_id
add_proposed event_type c found =
    if equals event_type (str "candidate.proposed") && not (is_falsy c.candidate_id)
    then (do known ← known_id c.candidate_id found; ok (if known then found else found ++ c ∷ []))
    else ok found

-- The first pass over the accepted events.
unfoldable pub collect_proposed : List Json → List CandidateSummary → Result (List CandidateSummary)
unfolding get get_default add_proposed
collect_proposed [] found = ok found
collect_proposed (event_ref ∷ refs) found = do
  event_type ← get "event_type" event_ref
  id ← get "entity_id" event_ref
  candidate_type ← get_default "candidate_type" (str "unknown") event_ref
  event_id ← get "event_id" event_ref
  next ←
      add_proposed event_type
        (record {
          candidate_id = id;
          candidate_type = candidate_type;
          outcome = proposed;
          proposed_event_id = event_id;
          promoted_observation_id = none;
        })
        found
  collect_proposed refs next

-- What an event makes of its candidate.
unfoldable pub advance : Json → Json → CandidateSummary → CandidateSummary
unfolding equals is_falsy
advance event_type promoted c =
    if equals event_type (str "candidate.routed_to_verify")
    then record c { outcome = routed_to_verify }
    else if equals event_type (str "candidate.rejected")
    then record c { outcome = rejected }
    else if equals event_type (str "candidate.promoted_to_observation")
    then record c {
      outcome = resolved_promoted;
      promoted_observation_id =
          if is_falsy promoted then c.promoted_observation_id else some promoted;
    }
    else c

unfoldable pub advance_at : Json → Json → Json → CandidateSummary → CandidateSummary
unfolding equals advance
advance_at id event_type promoted c =
    if equals c.candidate_id id then advance event_type promoted c else c

-- The second pass.
unfoldable pub update_outcomes : List Json → List CandidateSummary → Result (List CandidateSummary)
unfolding get known_id advance_at
update_outcomes [] found = ok found
update_outcomes (event_ref ∷ refs) found = do
  event_type ← get "event_type" event_ref
  id ← get "entity_id" event_ref
  known ← known_id id found
  promoted ← get "promoted_observation_id" event_ref
  update_outcomes refs (if known then map (advance_at id event_type promoted) found else found)

-- The outcomes that may be asked for.
abbrev pub outcome_named : String → Option CandidateStatus
outcome_named name =
    if name == "proposed"
    then some proposed
    else if name == "routed_to_verify"
    then some routed_to_verify
    else if name == "rejected"
    then some rejected
    else if name == "resolved_promoted"
    then some resolved_promoted
    else none

abbrev pub outcome_name : CandidateStatus → String
outcome_name status = elim status [
  | unknown ↦ "unknown"
  | proposed ↦ "proposed"
  | routed_to_verify ↦ "routed_to_verify"
  | rejected ↦ "rejected"
  | resolved_promoted ↦ "resolved_promoted"
]

unfoldable pub with_outcome : CandidateStatus → List CandidateSummary → List CandidateSummary
with_outcome outcome [] = []
with_outcome outcome (c ∷ cs) =
    let rest = with_outcome outcome cs in
    if outcome_name c.outcome == outcome_name outcome then c ∷ rest else rest

-- The two passes.
unfoldable pub listed_candidates : String → List Json → Result (List CandidateSummary)
unfolding for_executions refs_of collect_proposed update_outcomes
listed_candidates audit_id entries = do
  found ←
      for_executions
        (λ entry s. refs_of "accepted_events" entry >>= λ refs. collect_proposed refs s) audit_id
        entries []
  for_executions (λ entry s. refs_of "accepted_events" entry >>= λ refs. update_outcomes refs s)
      audit_id entries found

-- `list_candidates_by_outcome`
unfoldable pub list_candidates_by_outcome :
    String → Option String → LedgerFile → Result (List CandidateSummary)
unfolding read_entries listed_candidates with_outcome
list_candidates_by_outcome audit_id none file = read_entries file >>= listed_candidates audit_id
list_candidates_by_outcome audit_id (some name) file = elim (outcome_named name) [
  | none ↦ err ledger_error
  | some outcome ↦ do
    entries ← read_entries file
    found ← listed_candidates audit_id entries
    ok (with_outcome outcome found)
]
