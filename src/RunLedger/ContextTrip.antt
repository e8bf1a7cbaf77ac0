-- ===== src/RunLedger/ContextTrip.antt =====
-- A trace context as a dict and back: to_dict and from_dict of runtime/run_ledger.py.
use deterministic_audit_runt.Errors.{ok}
use deterministic_audit_runt.Prelude.{String, ◌≡◌, refl, true, Option, none, some}
use deterministic_audit_runt.RunLedger.Context.{
  stripped, optional_string, context_from_dict, context_fields, new_context,
  WorkerExecutionTraceContext, is_valid_context,
}
use deterministic_audit_runt.Tasks.Types.{option_json}
use deterministic_audit_runt.Json.{item, get, lookup, obj, end}
use deterministic_audit_runt.RunLedger.Start.{ledger_check}

-- An optional field without white space around it.
abbrev pub IsKept : Option String → Type 0
IsKept none = Unit
IsKept (some s) = stripped s ≡ some s

optional_string-IsKept : (o : Option String) → IsKept o → optional_string (option_json o) ≡ ok o
unfolding optional_string
optional_string-IsKept none h = refl
optional_string-IsKept (some s) h = rw h refl

-- A trace context that the constructor accepts, and whose optional fields have no white space around
-- them, is read back from its dict.
pub context_from_dict-context_fields :
    (c : WorkerExecutionTraceContext)
    → is_valid_context c ≡ true
    → IsKept c.input_digest
    → IsKept c.output_digest
    → IsKept c.slice_fingerprint
    → IsKept c.snapshot_ref
    → IsKept c.prompt_digest
    → IsKept c.raw_output_digest
    → context_from_dict (obj (context_fields c end)) ≡ ok c
unfolding context_from_dict context_fields item get lookup new_context ledger_check
context_from_dict-context_fields c valid h1 h2 h3 h4 h5 h6 =
    rw
      (
        optional_string-IsKept c.input_digest h1,
        optional_string-IsKept c.output_digest h2,
        optional_string-IsKept c.slice_fingerprint h3,
        optional_string-IsKept c.snapshot_ref h4,
        optional_string-IsKept c.prompt_digest h5,
        optional_string-IsKept c.raw_output_digest h6,
        valid,
      )
      refl
