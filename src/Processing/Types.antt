-- ===== src/Processing/Types.antt =====
-- The outcome of a candidate event, and its preparation, in runtime/processing.py.
use deterministic_audit_runt.Prelude.{
  ℕ, not, Option, none, some, List, [], ◌∷◌, String, if◌then◌else◌,
}
use deterministic_audit_runt.Errors.{Result, ok, ◌>>=◌}
use deterministic_audit_runt.Json.{Json, null, str, obj, field, end, get, lookup, set_field, is_obj}
use deterministic_audit_runt.EventStore.{AppendResult}
use deterministic_audit_runt.Validators.Issue.{ValidationIssue, IssuePath, at}
use deterministic_audit_runt.Validators.Transition.{is_text}

pub data EventVerdict : Type 0 where
  accepted rejected : EventVerdict

pub record CandidateEventOutcome : Type 0 where
  pub index : ℕ
  pub event_id : Option String
  pub audit_id : Option String
  pub entity_type : Option String
  pub entity_id : Option String
  pub event_type : Option String
  pub outcome : EventVerdict
  pub issues : List ValidationIssue
  pub append_result : Option AppendResult

-- `_read_string_field`
abbrev text_of : Option Json → Option String
text_of (some (str s)) = some s
text_of _ = none

unfoldable pub read_string_field : String → Json → Option String
unfolding lookup
read_string_field name (obj fs) = text_of (lookup name fs)
read_string_field name _ = none

-- `_build_outcome`
unfoldable pub build_outcome :
    ℕ → Json → EventVerdict → List ValidationIssue → Option AppendResult → CandidateEventOutcome
unfolding read_string_field
build_outcome index event outcome issues append_result = record {
  index = index;
  event_id = read_string_field "id" event;
  audit_id = read_string_field "audit_id" event;
  entity_type = read_string_field "entity_type" event;
  entity_id = read_string_field "entity_id" event;
  event_type = read_string_field "event_type" event;
  outcome = outcome;
  issues = issues;
  append_result = append_result;
}

-- An accepted event, or the issues for which the candidate is refused.
pub data Prepared : Type 0 where
  ready : Json → Prepared
  not_ready : List ValidationIssue → Prepared

abbrev pub preparation_issue : String → Option IssuePath → Prepared
preparation_issue code path =
    not_ready (record { validator = "processing"; code = code; rule_id = none; path = path } ∷ [])

-- SYSTEM_ACCEPTOR
abbrev pub system_acceptor : Json
system_acceptor = obj (
    field "actor_type" (str "system")
      (field "actor_id" (str "runtime.process_candidate_events") (field "role" null end)))

abbrev pub acceptance_at : Json → Json
acceptance_at occurred_at = obj (
    field "status" (str "accepted") (
      field "decided_at" occurred_at (
        field "decided_by" system_acceptor
          (field "reason" (str "accepted_by_validator_suite") end))))

-- `_prepare_accepted_event`
unfoldable pub prepare_accepted_event : (Json → Result Json) → Json → Result Prepared
unfolding get set_field
prepare_accepted_event canonicalize (obj fs) = do
  acceptance ← get "acceptance" (obj fs)
  if not (is_obj acceptance)
      then ok (preparation_issue "missing_acceptance_metadata" (some (at ("acceptance" ∷ []))))
      else do
        status ← get "status" acceptance
        if not (is_text "pending" status)
            then ok (
                preparation_issue "candidate_event_not_pending"
                  (some (at ("acceptance" ∷ "status" ∷ []))))
            else do
              occurred_at ← get "occurred_at" (obj fs)
              event ← canonicalize (obj (set_field "acceptance" (acceptance_at occurred_at) fs))
              ok (ready event)
prepare_accepted_event canonicalize _ = ok (preparation_issue "candidate_event_not_object" none)
