-- ===== src/RunLedger/Bare.antt =====
-- The outcomes in a written entry have the keys of _normalize_event_outcome and no others.
use mathlib.Core.Option
use deterministic_audit_runt.Prelude.{
  String, ◌≡◌, refl, none, List, [], ◌∷◌, ap, ◌∙◌, All, Bool-cases, inl, inr, sym, Option, some,
  Bool, true, false, if◌then◌else◌,
}
use deterministic_audit_runt.Json.{
  Json, null, bool, int, float, str, obj, arr, Items, nil, cons, Fields, lookup, items,
}
use deterministic_audit_runt.Json.Canonical.{
  canonical, canonical_items, lookup-canonical, canonical_fields,
}
use deterministic_audit_runt.Redaction.{redact_items, redact_fields, redact_value, redact_string}
use deterministic_audit_runt.Redaction.Structure.{lookup-redact_fields}
use deterministic_audit_runt.RunLedger.{
  EventOutcome, outcome_dict, outcomes_named, outcome_is, hashable,
}
use deterministic_audit_runt.Errors.{err_ne_ok, ok}
use mathlib.Core.Path.{subst}
use deterministic_audit_runt.RunLedger.Lineage.{hashable}
use deterministic_audit_runt.Tasks.Types.{option_json}

-- A value that is no list and no dict.
unfoldable pub IsPlain : Json → Type 0
unfolding hashable
IsPlain v = hashable v ≡ ok v

-- A dict without evidence, whose entity_id is plain.
unfoldable pub IsBareOutcome : Json → Type 0
unfolding IsPlain
IsBareOutcome v =
    (fs : Fields) × (v ≡ obj fs)
    × (lookup "evidence_observation_ids" fs ≡ none)
    × IsPlain (Option.get_or (lookup "entity_id" fs) null)

option_json-IsPlain : (o : Option String) → IsPlain (option_json o)
unfolding IsPlain
option_json-IsPlain none = refl
option_json-IsPlain (some s) = refl

text_IsPlain : (kept : Bool) (s t : String) → IsPlain (canonical (if kept then str s else str t))
unfolding IsPlain canonical
text_IsPlain true s t = refl
text_IsPlain false s t = refl

written_IsPlain :
    (detect : String → String → String) (name : String) (v : Json)
    → IsPlain v
    → IsPlain (canonical (redact_value detect v name))
unfolding IsPlain canonical redact_value
written_IsPlain detect name null h = refl
written_IsPlain detect name (bool b) h = refl
written_IsPlain detect name (int n) h = refl
written_IsPlain detect name (float s) h = refl
written_IsPlain detect name (str s) h = text_IsPlain _ s (redact_string detect s name)
written_IsPlain detect name (arr vs) h = absurd (err_ne_ok h)
written_IsPlain detect name (obj fs) h = absurd (err_ne_ok h)

field_IsPlain :
    (detect : String → String → String) (k : String) (found : Option Json)
    → IsPlain (Option.get_or found null)
    → IsPlain (
        Option.get_or (Option.map canonical (Option.map (λ w. redact_value detect w k) found)) null)
unfolding IsPlain
field_IsPlain detect k none h = refl
field_IsPlain detect k (some v) h = written_IsPlain detect k v h

outcome_dict-IsBareOutcome : (o : EventOutcome) → IsBareOutcome (outcome_dict o)
unfolding IsBareOutcome outcome_dict lookup
outcome_dict-IsBareOutcome o =
    elim o.rejection as (λ r. IsBareOutcome (outcome_dict (record o { rejection = r }))) [
      | null ↦ (_, refl, refl, option_json-IsPlain o.entity_id)
      | bool b ↦ (_, refl, refl, option_json-IsPlain o.entity_id)
      | int n ↦ (_, refl, refl, option_json-IsPlain o.entity_id)
      | float s ↦ (_, refl, refl, option_json-IsPlain o.entity_id)
      | str s ↦ (_, refl, refl, option_json-IsPlain o.entity_id)
      | arr vs ↦ (_, refl, refl, option_json-IsPlain o.entity_id)
      | obj fs ↦ (_, refl, refl, option_json-IsPlain o.entity_id)
    ]

outcomes_named-IsBareOutcome :
    (name : String) (os : List EventOutcome) → All (IsBareOutcome) (items (outcomes_named name os))
unfolding outcomes_named
outcomes_named-IsBareOutcome name [] = tt
outcomes_named-IsBareOutcome name (o ∷ os) = elim (Bool-cases (outcome_is name o)) [
  | inl q ↦ rw q (outcome_dict-IsBareOutcome o, outcomes_named-IsBareOutcome name os)
  | inr q ↦ rw q (outcomes_named-IsBareOutcome name os)
]

lookup_written :
    (detect : String → String → String) (k : String) (fs : Fields)
    → lookup k (canonical_fields (redact_fields detect fs))
      ≡ Option.map canonical (Option.map (λ w. redact_value detect w k) (lookup k fs))
lookup_written detect k fs =
    lookup-canonical k (redact_fields detect fs)
    ∙ ap (Option.map canonical) (lookup-redact_fields detect k fs)

written_IsBareOutcome :
    (detect : String → String → String) (name : String) (v : Json)
    → IsBareOutcome v
    → IsBareOutcome (canonical (redact_value detect v name))
unfolding IsBareOutcome canonical redact_value
written_IsBareOutcome detect name v (fs, e, absent, plain) = (
  canonical_fields (redact_fields detect fs),
  ap (λ w. canonical (redact_value detect w name)) e,
  lookup_written detect "evidence_observation_ids" fs
      ∙ ap
          (λ o.
            Option.map canonical
              (Option.map (λ w. redact_value detect w "evidence_observation_ids") o))
          absent,
  subst (λ o. IsPlain (Option.get_or o null)) (sym (lookup_written detect "entity_id" fs))
      (field_IsPlain detect "entity_id" (lookup "entity_id" fs) plain),
)

items-IsBareOutcome :
    (detect : String → String → String) (name : String) (vs : Items)
    → All (IsBareOutcome) (items vs)
    → All (IsBareOutcome) (items (canonical_items (redact_items detect vs name)))
unfolding canonical redact_value
items-IsBareOutcome detect name nil h = tt
items-IsBareOutcome detect name (cons v vs) (h, hs) =
    (written_IsBareOutcome detect name v h, items-IsBareOutcome detect name vs hs)

-- The accepted outcomes, redacted and sorted, name no evidence.
pub accepted-IsBareOutcome :
    (detect : String → String → String) (os : List EventOutcome)
    → All (IsBareOutcome) (
        items
          (canonical_items (redact_items detect (outcomes_named "accepted" os) "accepted_events")))
accepted-IsBareOutcome detect os =
    items-IsBareOutcome detect "accepted_events" (outcomes_named "accepted" os)
      (outcomes_named-IsBareOutcome "accepted" os)
