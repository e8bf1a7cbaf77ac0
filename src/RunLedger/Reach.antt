-- ===== src/RunLedger/Reach.antt =====
-- The run ledgers that start_run and record_worker_execution make.
use mathlib.Core.Option
use deterministic_audit_runt.Prelude.{
  String, ◌≡◌, refl, some, none, Option, List, [], ◌∷◌, ◌++◌, ap, ◌∙◌, inl, inr, All, All-append,
  length, arith, ◌+◌,
}
use deterministic_audit_runt.Prelude.Int.{pos}
use deterministic_audit_runt.Errors.{ok}
use deterministic_audit_runt.Json.{Json, obj, arr, Fields, lookup, str, int, items, nil}
use deterministic_audit_runt.EventStore.{LedgerFile, Line, value, append_line}
use deterministic_audit_runt.RunLedger.{
  read_entries, read_lines, start_run, start_entry, RunStartResult, append_entry, next_sequence,
  entry_id, refs_of, WorkerExecutionTraceContext, ExecutionReport, EventOutcome,
  record_worker_execution, execution_entry, outcomes_named, iterate, context_fields,
}
use deterministic_audit_runt.RunLedger.Persisted.{
  written_entry, closed, field_of-written_entry, get_default-written_entry,
  read_entries-append_entry,
}
use deterministic_audit_runt.RunLedger.Numbered.{
  IsNumber, IsNumbered, IsNumbered-append, next_sequence-IsNumbered,
}
use deterministic_audit_runt.RunLedger.Bare.{IsBareOutcome, accepted-IsBareOutcome}
use deterministic_audit_runt.RunLedger.Growth.{start_run_cases, record_worker_execution_appends}
use mathlib.Core.Path.{subst}
use deterministic_audit_runt.Redaction.{redact_value, redact_items}
use deterministic_audit_runt.Json.Canonical.{canonical, canonical_items}
use deterministic_audit_runt.RunLedger.Context.{context_fields, iterate}

-- The accepted outcomes of an entry name no evidence.
unfoldable pub IsBare : Json → Type 0
IsBare e = (refs : List Json) × (refs_of "accepted_events" e ≡ ok refs) × All IsBareOutcome refs

module _ (detect : String → String → String) where
  -- A run ledger from its creation on.
  pub data Recorded : LedgerFile → Type 0 where
    fresh : Recorded (closed [])
    started :
        (audit_id snapshot_ref : String) (run_id : Option String) (metadata : Json)
        (r : RunStartResult) {before after : LedgerFile}
        → Recorded before
        → start_run detect audit_id snapshot_ref run_id metadata before ≡ ok (r, after)
        → Recorded after
    executed :
        (c : WorkerExecutionTraceContext) (e : ExecutionReport) (outcomes : List Json)
        (entry : Json) {before after : LedgerFile}
        → Recorded before
        → record_worker_execution detect c e outcomes before ≡ ok (entry, after)
        → Recorded after

  pub record IsSound (file : LedgerFile) : Type 0 where
    pub lines : List Line
    pub entries : List Json
    pub ends : closed lines ≡ file
    pub reads : read_lines lines ≡ ok entries
    pub numbered : IsNumbered 1 entries
    pub bare : All IsBare entries

  pub reads_file : (file : LedgerFile) (s : IsSound file) → read_entries file ≡ ok s.entries
  unfolding read_entries
  reads_file file s = subst (λ f. read_entries f ≡ ok s.entries) s.ends s.reads

  -- Appending an entry with the next number keeps a ledger sound.
  appended-IsSound :
      (file after : LedgerFile) (s : IsSound file) (fs : Fields)
      → lookup "sequence" fs ≡ some (int (next_sequence s.entries))
      → lookup "entry_id" fs ≡ some (str (entry_id (next_sequence s.entries)))
      → IsBare (written_entry detect (obj fs))
      → append_entry detect (obj fs) file ≡ after
      → IsSound after
  unfolding append_entry IsNumber redact_value append_line
  appended-IsSound file after s fs sequence id bare e =
      let entry = written_entry detect (obj fs) in
      let next : next_sequence s.entries ≡ pos (1 + length s.entries) =
        next_sequence-IsNumbered s.entries s.numbered ∙ ap pos (omega arith) in
      let number : IsNumber (1 + length s.entries) entry = (
        field_of-written_entry detect "sequence" fs
            ∙ ap (Option.map (λ v. canonical (redact_value detect v "sequence")))
                (sequence ∙ ap (λ n. some (int n)) next),
        field_of-written_entry detect "entry_id" fs
            ∙ ap (Option.map (λ v. canonical (redact_value detect v "entry_id")))
                (id ∙ ap (λ n. some (str (entry_id n))) next),
      ) in
      record {
        lines = s.lines ++ value entry ∷ [];
        entries = s.entries ++ entry ∷ [];
        ends = ap (append_entry detect (obj fs)) s.ends ∙ e;
        reads = read_entries-append_entry detect s.lines s.entries fs s.reads;
        numbered = IsNumbered-append 1 s.entries entry s.numbered number;
        bare = All-append IsBare s.entries (entry ∷ []) s.bare (bare, tt);
      }

  absent-IsBare :
      (fs : Fields) → lookup "accepted_events" fs ≡ none → IsBare (written_entry detect (obj fs))
  unfolding IsBare refs_of iterate
  absent-IsBare fs h =
      ([], rw (get_default-written_entry detect "accepted_events" (arr nil) fs, h) refl, tt)

  outcomes-IsBare :
      (fs : Fields) (os : List EventOutcome)
      → lookup "accepted_events" fs ≡ some (arr (outcomes_named "accepted" os))
      → IsBare (written_entry detect (obj fs))
  unfolding IsBare refs_of iterate canonical redact_value
  outcomes-IsBare fs os h = (
    items (canonical_items (redact_items detect (outcomes_named "accepted" os) "accepted_events")),
    rw (get_default-written_entry detect "accepted_events" (arr nil) fs, h) refl,
    accepted-IsBareOutcome detect os,
  )

  started-IsSound :
      (audit_id snapshot_ref : String) (run_id : Option String) (metadata : Json)
      (r : RunStartResult) (before after : LedgerFile)
      → IsSound before
      → start_run detect audit_id snapshot_ref run_id metadata before ≡ ok (r, after)
      → IsSound after
  unfolding start_entry lookup
  started-IsSound audit_id snapshot_ref run_id metadata r before after s h =
      elim (start_run_cases detect audit_id snapshot_ref run_id metadata before s.entries r after
        (reads_file before s) h).1 [
          | inl same_file ↦ subst IsSound same_file s
          | inr grown ↦ appended-IsSound before after s _ refl refl (absent-IsBare _ refl) grown
        ]

  executed-IsSound :
      (c : WorkerExecutionTraceContext) (e : ExecutionReport) (outcomes : List Json) (entry : Json)
      (before after : LedgerFile)
      → IsSound before
      → record_worker_execution detect c e outcomes before ≡ ok (entry, after)
      → IsSound after
  unfolding execution_entry lookup context_fields
  executed-IsSound c e outcomes entry before after s h =
      let (os, _, _, grown) =
        record_worker_execution_appends detect c e outcomes before s.entries entry after
          (reads_file before s) h in
      appended-IsSound before after s _ refl refl (outcomes-IsBare _ os refl) grown

  -- Each run ledger that start_run and record_worker_execution make, in any order and whatever the
  -- redaction does to texts, can be read, and its entries carry the sequences 1, 2, 3 and so on, in
  -- the entry ids too.
  pub Recorded-IsSound : (file : LedgerFile) → Recorded file → IsSound file
  unfolding read_lines IsNumbered
  Recorded-IsSound file fresh = record {
    lines = [];
    entries = [];
    ends = refl;
    reads = refl;
    numbered = tt;
    bare = tt;
  }
  Recorded-IsSound file (started audit_id snapshot_ref run_id metadata r {before} reached h) =
      started-IsSound audit_id snapshot_ref run_id metadata r before file
        (Recorded-IsSound before reached) h
  Recorded-IsSound file (executed c e outcomes entry {before} reached h) =
      executed-IsSound c e outcomes entry before file (Recorded-IsSound before reached) h
