-- ===== src/RunLedger/Outcomes.antt =====
-- The outcomes of events in an entry of runtime/run_ledger.py.
use deterministic_audit_runt.Prelude.{
  String, Bool, false, Option, none, some, List, [], ◌∷◌, ◌==◌, if◌then◌else◌, text_le,
}
use deterministic_audit_runt.Prelude.Sort.{sort}
use deterministic_audit_runt.Errors.{Result, ok, ◌>>=◌}
use deterministic_audit_runt.Json.{
  Json, arr, obj, Items, nil, cons, field, get, get_default, is_obj,
}
use deterministic_audit_runt.Tasks.Types.{option_json}
use deterministic_audit_runt.RunLedger.Start.{ledger_check}
use deterministic_audit_runt.Prelude.Codes.{codes}
use deterministic_audit_runt.RunLedger.Context.{
  text_items, optional_string, rejection_fields, iterate, issue_texts, is_outcome,
  line_number_valid,
}

-- What `_normalize_event_outcome` keeps of an outcome.
pub record EventOutcome : Type 0 where
  pub event_id : Option String
  pub event_type : Option String
  pub entity_type : Option String
  pub entity_id : Option String
  pub outcome : Option String
  pub issue_codes : List String
  pub line_number : Json
  pub ledger_path : Option String
  pub rejection : Json

unfoldable pub outcome_dict : EventOutcome → Json
unfolding text_items
outcome_dict o = obj (
    field "event_id" (option_json o.event_id) (
      field "event_type" (option_json o.event_type) (
        field "entity_type" (option_json o.entity_type) (
          field "entity_id" (option_json o.entity_id) (
            field "outcome" (option_json o.outcome) (
              field "issue_codes" (arr (text_items o.issue_codes)) (
                field "ledger_line_number" o.line_number (
                  field "ledger_path" (option_json o.ledger_path)
                    (rejection_fields o.rejection)))))))))

-- `_normalize_event_outcome`
unfoldable pub normalize_event_outcome : Json → Result EventOutcome
unfolding ledger_check get get_default optional_string iterate issue_texts sort text_le
normalize_event_outcome value = do
  _ ← ledger_check (is_obj value)
  event_id ← get "event_id" value >>= optional_string
  event_type ← get "event_type" value >>= optional_string
  entity_type ← get "entity_type" value >>= optional_string
  entity_id ← get "entity_id" value >>= optional_string
  outcome ← get "outcome" value >>= optional_string
  codes ← get_default "issue_codes" (arr nil) value >>= iterate
  line_number ← get "ledger_line_number" value
  ledger_path ← get "ledger_path" value >>= optional_string
  rejection ← get "rejection" value
  _ ← ledger_check (is_outcome outcome)
  _ ← ledger_check (line_number_valid line_number)
  ok (record {
    event_id = event_id;
    event_type = event_type;
    entity_type = entity_type;
    entity_id = entity_id;
    outcome = outcome;
    issue_codes = sort text_le (issue_texts codes);
    line_number = line_number;
    ledger_path = ledger_path;
    rejection = rejection;
  })

unfoldable pub normalize_outcomes : List Json → Result (List EventOutcome)
unfolding normalize_event_outcome
normalize_outcomes [] = ok []
normalize_outcomes (v ∷ vs) = do
  o ← normalize_event_outcome v
  os ← normalize_outcomes vs
  ok (o ∷ os)

abbrev pub outcome_is : String → EventOutcome → Bool
outcome_is s o = elim o.outcome [ none ↦ false | some t ↦ t == s ]

-- `[outcome for outcome in outcomes if outcome["outcome"] == name]`
unfoldable pub outcomes_named : String → List EventOutcome → Items
unfolding outcome_dict
outcomes_named s [] = nil
outcomes_named s (o ∷ os) =
    let rest = outcomes_named s os in if outcome_is s o then cons (outcome_dict o) rest else rest
