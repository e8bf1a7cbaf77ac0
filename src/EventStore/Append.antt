-- ===== src/EventStore/Append.antt =====
-- `append_event` of runtime/event_store.py on a file that is repaired already.
use deterministic_audit_runt.Prelude.{ℕ, String, ◌≡◌, ◌∙◌, Option, none, List, [], ◌∷◌, ◌++◌}
use deterministic_audit_runt.Errors.{Result, ok, ◌>>=◌}
use deterministic_audit_runt.Json.{Json}
use deterministic_audit_runt.Json.Canonical.{canonical}
use deterministic_audit_runt.Redaction.{redact_event}
use deterministic_audit_runt.EventStore.Ledger.{
  value, LedgerFile, StoredEvent, stored_from, all_lines,
}
use deterministic_audit_runt.EventStore.{
  find_duplicate_or_conflict, validate_event, scan, settle, append_locked, append_valid,
  append_event, all_lines,
}
use deterministic_audit_runt.EventStore.Repair.{
  IsSound, after_repair_of_IsSound, iter_stored_events_of_IsSound,
}

-- Nothing stands behind the last line break.
pub record IsClosed (f : LedgerFile) : Type 0 where
  pub sound : IsSound f
  pub no_tail : f.tail ≡ none

module _ (schema_errors : Json → List String) (detect : String → String → String) (event : Json)
    (f : LedgerFile) where
  -- The file with the line that the event is written as.
  abbrev pub extended : LedgerFile
  extended = record {
    lines = f.lines ++ value (canonical (redact_event detect event)) ∷ [];
    tail = none;
  }

  -- What the scan of a closed file finds.
  abbrev pub found : Result (Option StoredEvent × ℕ)
  found = stored_from 1 none f.lines >>= find_duplicate_or_conflict (redact_event detect event)

  -- What the scan of a repaired file finds, its unterminated line included.
  abbrev pub found_all : Result (Option StoredEvent × ℕ)
  found_all =
      stored_from 1 none (all_lines f) >>= find_duplicate_or_conflict (redact_event detect event)

  scan_of_IsSound : IsSound f → scan schema_errors detect event f ≡ (found_all, f)
  unfolding scan
  scan_of_IsSound c = rw (scan, iter_stored_events_of_IsSound none f c)

  append_locked_of_IsSound :
      IsSound f
      → append_locked schema_errors detect event f
        ≡ settle schema_errors detect event (found_all, f)
  unfolding append_locked
  append_locked_of_IsSound c = rw (append_locked, scan_of_IsSound c)

  -- On a repaired file the repairs change nothing.
  pub append_event_of_IsSound :
      IsSound f
      → validate_event schema_errors detect event ≡ ok tt
      → append_event schema_errors detect event f ≡ settle schema_errors detect event (found_all, f)
  unfolding append_event
  append_event_of_IsSound c v =
      rw (append_event, v, append_valid)
        (after_repair_of_IsSound f (append_locked schema_errors detect event) c
          ∙ append_locked_of_IsSound c)

  pub append_event_of_IsClosed :
      IsClosed f
      → validate_event schema_errors detect event ≡ ok tt
      → append_event schema_errors detect event f ≡ settle schema_errors detect event (found, f)
  append_event_of_IsClosed c v = rw (append_event_of_IsSound c.sound v) (rw c.no_tail)
