-- ===== src/Validators/Transition/Tables.antt =====
-- The shape of rules/transition_rules.yaml, as runtime/validators/transition.py reads it.
use deterministic_audit_runt.Prelude.{String, Option, List}

-- A path of keys, `payload.evidence.observation_ids` split at its dots.
abbrev pub FieldPath : Type 0
FieldPath = List String

pub record AllowedRule : Type 0 where
  pub rule_id : String
  pub from : String
  pub to : String
  pub via_event_types : List String

pub record ForbiddenRule : Type 0 where
  pub rule_id : String
  pub from : String
  pub to : String

pub record EntityRules : Type 0 where
  pub allowed_transitions : List AllowedRule
  pub forbidden_transitions : List ForbiddenRule

-- The keys by which a guard chooses the events that it looks at.
pub record Scope : Type 0 where
  pub entity_type : String
  pub event_type : String

-- A guard, with the fields of all kinds: those that its own kind does not read stand empty.
pub record Guard : Type 0 where
  pub rule_id : String
  pub guard_kind : String
  pub scope : Scope
  pub field_path : FieldPath
  pub referenced_entity_type : String
  pub required_state : String
  pub referenced_field_path : FieldPath
  pub allowed_values : List String
  pub when_field : FieldPath
  pub requires_field : FieldPath
  pub source_entity_type : String
  pub target_entity_type : String

pub record Rules : Type 0 where
  pub permissions : String → Option (List String)
  pub entities : String → Option EntityRules
  pub guards : List Guard
