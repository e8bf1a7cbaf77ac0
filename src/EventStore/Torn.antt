-- ===== src/EventStore/Torn.antt =====
-- A write that was cut off exactly before its line break, in runtime/event_store.py.
use deterministic_audit_runt.EventStore.Append.{found_all, append_event_of_IsSound}
use deterministic_audit_runt.EventStore.Repair.{IsSound, AllSound}
use deterministic_audit_runt.Prelude.{
  ℕ, String, ◌≡◌, refl, sym, ◌∙◌, false, Option, none, some, List, [], ◌∷◌, ◌++◌, arith,
}
use deterministic_audit_runt.Errors.{Result, ok, err}
use deterministic_audit_runt.EventStore.Ledger.{
  repair_lines, LedgerFile, Line, broken, repair, append_line, StoredEvent, value,
}
use deterministic_audit_runt.Json.{Json, Fields, obj}
use deterministic_audit_runt.EventStore.{
  append_event, settle, repair, append_line, StoredEvent, AppendResult, value, appended,
  validate_event,
}

repair_lines-snoc_broken :
    (ls : List Line) → AllSound ls → repair_lines false (ls ++ broken ∷ []) ≡ ok ls
unfolding repair_lines
repair_lines-snoc_broken [] h = refl
repair_lines-snoc_broken (l ∷ ls) h = rw (h.0, repair_lines-snoc_broken ls h.1)

module _ (schema_errors : Json → List String) (detect : String → String → String) (event : Json)
    (f : LedgerFile) where
  settle_torn :
      (x : Result (Option StoredEvent × ℕ)) (fs : Fields) (r : AppendResult) (f' : LedgerFile)
      → f.tail ≡ some (value (obj fs))
      → settle schema_errors detect event (x, f) ≡ (ok r, f')
      → r.outcome ≡ appended
      → f' ≡ record { lines = f.lines ++ broken ∷ []; tail = none }
  unfolding settle append_line
  settle_torn (err e) fs r f' t h new = cc
  settle_torn (ok (some s, n)) fs r f' t h new = ground arith
  settle_torn (ok (none, n)) fs r f' t h new = ground arith

  -- A complete event whose line break was not written yet is a torn tail that the repair keeps. The
  -- next event is appended to it on the same line, and reported as appended. The repair after that
  -- drops the line: the file is left with the lines before the torn one, and both events are gone.
  pub append_after_torn_tail :
      (fs : Fields) (r : AppendResult) (f' : LedgerFile)
      → AllSound f.lines
      → f.tail ≡ some (value (obj fs))
      → append_event schema_errors detect event f ≡ (ok r, f')
      → r.outcome ≡ appended
      → repair f' ≡ ok (record { lines = f.lines; tail = none })
  unfolding append_event repair
  append_after_torn_tail fs r f' s t done new = go (validate_event schema_errors detect event) refl
    where
      sound : IsSound f
      sound = record { lines_sound = s; tail_sound = rw t refl }

      go :
          (v : Result (Unit {0}))
          → validate_event schema_errors detect event ≡ v
          → repair f' ≡ ok (record { lines = f.lines; tail = none })
      go (err e) h = absurd (unfold append_event in ground arith)
      go (ok u) h =
          let at_end =
            settle_torn (found_all schema_errors detect event f) fs r f' t
              (sym (append_event_of_IsSound schema_errors detect event f sound h) ∙ done) new in
          rw at_end (rw (repair_lines-snoc_broken f.lines s))
