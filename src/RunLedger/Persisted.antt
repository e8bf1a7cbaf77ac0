-- ===== src/RunLedger/Persisted.antt =====
-- What an entry is once it is written: redacted, sorted, and read again.
use mathlib.Core.Option
use deterministic_audit_runt.Prelude.{
  String, ◌≡◌, refl, true, some, none, List, [], ◌∷◌, ◌++◌, ap, ◌∙◌, Option, sym, inl, inr,
  Bool-cases,
}
use deterministic_audit_runt.Errors.{ok, >>=-eq-ok, ok_inj, err_ne_ok}
use deterministic_audit_runt.Json.{Json, obj, Fields, lookup, is_obj, get_default}
use deterministic_audit_runt.Json.Canonical.{canonical, lookup-canonical}
use deterministic_audit_runt.Redaction.{redact_event, redact_fields, redact_value}
use deterministic_audit_runt.Redaction.Structure.{lookup-redact_fields}
use deterministic_audit_runt.EventStore.{LedgerFile, Line, value, blank, broken}
use deterministic_audit_runt.RunLedger.{read_lines, field_of}

map_twice :
    (f g : Json → Json) (o : Option Json)
    → Option.map g (Option.map f o) ≡ Option.map (λ v. g (f v)) o
map_twice f g none = refl
map_twice f g (some v) = refl

module _ (detect : String → String → String) where
  -- The value that is written for an entry.
  abbrev pub written_entry : Json → Json
  written_entry entry = canonical (redact_event detect entry)

  pub field_of-written_entry :
      (k : String) (fs : Fields)
      → field_of k (written_entry (obj fs))
        ≡ Option.map (λ v. canonical (redact_value detect v k)) (lookup k fs)
  unfolding field_of redact_event canonical
  field_of-written_entry k fs =
      lookup-canonical k (redact_fields detect fs)
      ∙ ap (Option.map canonical) (lookup-redact_fields detect k fs)
      ∙ map_twice (λ v. redact_value detect v k) canonical (lookup k fs)

-- Entries behind a file that ends with a line break.
pub read_lines-append :
    (ls : List Line) (es : List Json) (v : Json)
    → read_lines ls ≡ ok es
    → is_obj v ≡ true
    → read_lines (ls ++ value v ∷ []) ≡ ok (es ++ v ∷ [])
unfolding read_lines
read_lines-append [] es v h k = rw (sym (ok_inj h), k) refl
read_lines-append (blank ∷ ls) es v h k = read_lines-append ls es v h k
read_lines-append (broken ∷ ls) es v h k = absurd (err_ne_ok h)
read_lines-append (value w ∷ ls) es v h k = elim (Bool-cases (is_obj w)) [
  | inl q ↦
      let (others, e, built) = >>=-eq-ok (read_lines ls) _ (rw q at h) in
      rw (q, read_lines-append ls others v e k, sym (ok_inj built)) refl
  | inr q ↦ absurd (err_ne_ok (rw q at h))
]

-- A file that ends with a line break.
abbrev pub closed : List Line → LedgerFile
closed ls = record { lines = ls; tail = none }

module _ (detect : String → String → String) where
  -- What is appended to such a file is read behind its entries.
  pub read_entries-append_entry :
      (ls : List Line) (es : List Json) (fs : Fields)
      → read_lines ls ≡ ok es
      → read_lines (ls ++ value (written_entry detect (obj fs)) ∷ [])
        ≡ ok (es ++ written_entry detect (obj fs) ∷ [])
  unfolding redact_event canonical
  read_entries-append_entry ls es fs h =
      read_lines-append ls es (written_entry detect (obj fs)) h refl

  pub get_default-written_entry :
      (k : String) (default : Json) (fs : Fields)
      → get_default k default (written_entry detect (obj fs))
        ≡ ok (
            Option.get_or
              (Option.map (λ v. canonical (redact_value detect v k)) (lookup k fs))
              default)
  unfolding get_default redact_event canonical field_of
  get_default-written_entry k default fs =
      ap (λ o. ok (Option.get_or o default)) (field_of-written_entry detect k fs)
