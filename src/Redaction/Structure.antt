-- ===== src/Redaction/Structure.antt =====
-- What redaction keeps of an artifact.
use mathlib.Core.Option
use deterministic_audit_runt.Prelude.{String, ◌≡◌, refl, true, elem, arith, eq_iff}
use deterministic_audit_runt.Json.{str, Fields, end, field, lookup, item, Json, is_obj, obj}
use deterministic_audit_runt.Redaction.{
  skip_redaction_fields, redact_value, redact_fields, redact_event,
}
use deterministic_audit_runt.Errors.{ok}
use deterministic_audit_runt.Json.Canonical.{canonical, canonical-str, item-canonical}

module _ (detect : String → String → String) where
  -- A key is there after redaction exactly when it was before, with its value redacted under it.
  pub lookup-redact_fields :
      (k : String) (fs : Fields)
      → lookup k (redact_fields detect fs) ≡ Option.map (λ v. redact_value detect v k) (lookup k fs)
  unfolding lookup redact_value
  lookup-redact_fields k end = refl
  lookup-redact_fields k (field j v fs) = ground (arith, eq_iff j k, lookup-redact_fields k fs)

  -- A text under a structural field comes out as it went in.
  pub redact_value-skipped :
      (s name : String)
      → elem name skip_redaction_fields ≡ true
      → redact_value detect (str s) name ≡ str s
  unfolding redact_value
  redact_value-skipped s name h = rw h

  pub item-redact_event :
      (k s : String) (event : Json)
      → elem k skip_redaction_fields ≡ true
      → item k event ≡ ok (str s)
      → item k (redact_event detect event) ≡ ok (str s)
  unfolding redact_event item
  item-redact_event k s (obj fs) h e =
      ground (arith, lookup-redact_fields k fs, redact_value-skipped s k h)
  item-redact_event k s _ h e = cc

  -- Under a structural field a text is found in the redacted and sorted artifact as it was.
  pub item-canonical-redact_event :
      (k s : String) (event : Json)
      → elem k skip_redaction_fields ≡ true
      → item k event ≡ ok (str s)
      → item k (canonical (redact_event detect event)) ≡ ok (str s)
  item-canonical-redact_event k s event h e =
      rw canonical-str at
        (item-canonical k (redact_event detect event) (item-redact_event k s event h e))

  -- What is persisted of an object is an object.
  pub is_obj-canonical-redact_event :
      (event : Json) → is_obj event ≡ true → is_obj (canonical (redact_event detect event)) ≡ true
  unfolding redact_event canonical
  is_obj-canonical-redact_event (obj fs) h = refl
  is_obj-canonical-redact_event _ h = cc
