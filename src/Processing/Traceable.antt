-- ===== src/Processing/Traceable.antt =====
-- The outcomes of a batch are recorded without an error, and each accepted event can be traced.
use mathlib.Core.List.{Memᴰ}
use deterministic_audit_runt.Prelude.{
  ◌≤◌, String, ◌≡◌, refl, true, false, Option, none, some, List, [], ◌∷◌, map, All, ap, sym, ◌∙◌,
  arith, text_le, ℕ, suc, inl, inr, length, Bool-cases, ◌≢◌,
}
use deterministic_audit_runt.Prelude.Sort.{sort}
use deterministic_audit_runt.Errors.{ok}
use deterministic_audit_runt.Json.{get, items, get_default, Json, item, lookup, str}
use deterministic_audit_runt.EventStore.{AppendResult, LedgerFile}
use deterministic_audit_runt.Tasks.Text.{strip, no_text}
use deterministic_audit_runt.Tasks.Types.{option_json}
use deterministic_audit_runt.Validators.Issue.{codes_of}
use deterministic_audit_runt.RunLedger.{
  EventOutcome, normalize_event_outcome, normalize_outcomes, stripped, issue_texts, text_items,
  optional_string, iterate, ledger_check, line_number_valid, is_outcome, record_worker_execution,
  is_valid_execution, WorkerExecutionTraceContext, execution_entry, is_some, execution_fields,
  read_entries, next_sequence, append_entry, entry_id, resolve_event_trace,
}
use deterministic_audit_runt.RunLedger.Reach.{IsSound, reads_file}
use deterministic_audit_runt.Processing.{
  CandidateEventOutcome, trace_outcome, rejection_json, line_number_json, verdict_text, accepted,
  rejected, path_json, EventVerdict, record_trace_entry, traced, report_of,
}
use deterministic_audit_runt.RunLedger.Traced.{Accepted, here, there, resolve_event_trace-recorded}
use deterministic_audit_runt.Processing.Trace.{path_json, traced, report_of}
use deterministic_audit_runt.Processing.Types.{EventVerdict}
use deterministic_audit_runt.Prelude.Int.{ltb_ℤ, pos}
use deterministic_audit_runt.RunLedger.Written.{written_trace}

abbrev stripped_of : Option String → Option String
stripped_of none = none
stripped_of (some s) = stripped s

abbrev path_of : String → Option AppendResult → Option String
path_of path none = none
path_of path (some r) = stripped path

-- What the run ledger keeps of an outcome.
abbrev kept_outcome : String → CandidateEventOutcome → EventOutcome
kept_outcome path o = record {
  event_id = stripped_of o.event_id;
  event_type = stripped_of o.event_type;
  entity_type = stripped_of o.entity_type;
  entity_id = stripped_of o.entity_id;
  outcome = some (verdict_text o.outcome);
  issue_codes = sort text_le (issue_texts (items (text_items (codes_of o.issues))));
  line_number = line_number_json o.append_result;
  ledger_path = path_of path o.append_result;
  rejection = rejection_json o;
}

-- The line number of an append counts from 1.
abbrev pub LineIsNumber : Option AppendResult → Type 0
LineIsNumber none = Unit
LineIsNumber (some r) = 1 ≤ r.line_number

optional_string-option_json :
    (o : Option String) → optional_string (option_json o) ≡ ok (stripped_of o)
unfolding optional_string
optional_string-option_json none = refl
optional_string-option_json (some s) = refl

verdict_kept : (v : EventVerdict) → strip (verdict_text v) ≡ verdict_text v
unfolding strip
verdict_kept accepted = refl
verdict_kept rejected = refl

verdict_given : (v : EventVerdict) → no_text (verdict_text v) ≡ false
verdict_given accepted = refl
verdict_given rejected = refl

verdict_known : (v : EventVerdict) → is_outcome (some (verdict_text v)) ≡ true
verdict_known accepted = refl
verdict_known rejected = refl

path_kept :
    (path : String) (r : Option AppendResult)
    → optional_string (path_json path r) ≡ ok (path_of path r)
unfolding optional_string
path_kept path none = refl
path_kept path (some r) = refl

line_known :
    (r : Option AppendResult) → LineIsNumber r → line_number_valid (line_number_json r) ≡ true
line_known none h = refl
line_known (some r) h = ground arith

normalize_event_outcome-trace_outcome :
    (path : String) (o : CandidateEventOutcome)
    → LineIsNumber o.append_result
    → normalize_event_outcome (trace_outcome path o) ≡ ok (kept_outcome path o)
unfolding normalize_event_outcome trace_outcome get get_default iterate ledger_check
normalize_event_outcome-trace_outcome path o h =
    rw
      (
        optional_string-option_json o.event_id,
        optional_string-option_json o.event_type,
        optional_string-option_json o.entity_type,
        optional_string-option_json o.entity_id,
        verdict_kept o.outcome,
        verdict_given o.outcome,
        path_kept path o.append_result,
        verdict_known o.outcome,
        line_known o.append_result h,
      )
      refl

normalize_outcomes-map :
    (path : String) (os : List CandidateEventOutcome)
    → All (λ o. LineIsNumber o.append_result) os
    → normalize_outcomes (map (trace_outcome path) os) ≡ ok (map (kept_outcome path) os)
unfolding normalize_outcomes
normalize_outcomes-map path [] h = refl
normalize_outcomes-map path (o ∷ os) (h, hs) =
    rw (normalize_event_outcome-trace_outcome path o h, normalize_outcomes-map path os hs) refl

-- An accepted outcome under an id without white space around it is accepted in the run ledger.
kept-Accepted :
    (path id : String) (o : CandidateEventOutcome) (os : List CandidateEventOutcome)
    → o.outcome ≡ accepted
    → o.event_id ≡ some id
    → stripped id ≡ some id
    → Memᴰ o os
    → Accepted id (map (kept_outcome path) os)
kept-Accepted path id o [] v e t m = elim m [ ]
kept-Accepted path id o (u ∷ os) v e t (Memᴰ.head same_outcome) =
    here (kept_outcome path u) (rw (sym same_outcome, v) refl)
      (ap (λ w. stripped_of w.event_id) (sym same_outcome) ∙ ap stripped_of e ∙ t)
kept-Accepted path id o (u ∷ os) v e t (Memᴰ.tail m) =
    there (kept_outcome path u) (kept-Accepted path id o os v e t m)

report_valid :
    (c : WorkerExecutionTraceContext) (total taken refused : ℕ)
    → is_some c.input_digest ≡ true
    → is_some c.output_digest ≡ true
    → is_valid_execution c (report_of total taken refused) ≡ true
unfolding is_valid_execution
report_valid c total taken refused h k =
    rw (not_negative total, not_negative taken, not_negative refused, h, k) refl
  where
    not_negative : (n : ℕ) → ltb_ℤ (pos n) (pos 0) ≡ false
    not_negative n = ground arith

none_is_not_given : {e : String} → none ≢ some e
none_is_not_given h = cc

given_of : (e : String) → stripped e ≡ some e → no_text (strip e) ≡ false
given_of e h = elim (Bool-cases (no_text (strip e))) [
  | inl q ↦ absurd (none_is_not_given (rw q at h))
  | inr q ↦ q
]

recorded_entry :
    (detect : String → String → String) (path : String) (c : WorkerExecutionTraceContext)
    (outcomes : List CandidateEventOutcome) (total taken refused : ℕ) (runs : LedgerFile)
    (es : List Json)
    → All (λ o. LineIsNumber o.append_result) outcomes
    → is_some c.input_digest ≡ true
    → is_some c.output_digest ≡ true
    → read_entries runs ≡ ok es
    → let entry =
        execution_entry
          (next_sequence es)
          c
          (report_of total taken refused)
          (map (kept_outcome path) outcomes) in
      record_worker_execution detect c
        (report_of total taken refused)
        (map (trace_outcome path) outcomes)
        runs
      ≡ ok (entry, append_entry detect entry runs)
unfolding record_worker_execution ledger_check
recorded_entry detect path c outcomes total taken refused runs es lines h k reads =
    rw (report_valid c total taken refused h k, reads, normalize_outcomes-map path outcomes lines)
      refl

-- For a batch whose appends have line numbers from 1 on, a context with both digests, and a run
-- ledger that the code has written, the recording of the trace entry does not raise: its answer is
-- the id with the next number. Each accepted outcome of the batch, under an event id without white
-- space around it, then has a trace in the run ledger. The redaction is asked to leave the text
-- "worker_execution" alone.
pub record_trace_entry-traceable :
    (detect : String → String → String) (path : String) (c : WorkerExecutionTraceContext)
    (outcomes : List CandidateEventOutcome) (total taken refused : ℕ) (runs : LedgerFile)
    → (s : IsSound detect runs) → All (λ o. LineIsNumber o.append_result) outcomes
    → is_some c.input_digest ≡ true
    → is_some c.output_digest ≡ true
    → detect "worker_execution" "entry_type" ≡ "worker_execution"
    → (after : LedgerFile) × (record_trace_entry detect path c outcomes total taken refused runs
        ≡ ok (str (entry_id (next_sequence s.entries)), after))
      × ((o : CandidateEventOutcome) (id : String)
          → Memᴰ o outcomes
          → o.outcome ≡ accepted
          → o.event_id ≡ some id
          → stripped id ≡ some id
          → (trace : Json) × (resolve_event_trace id after ≡ ok (some trace)))
unfolding record_trace_entry traced execution_entry execution_fields item lookup
record_trace_entry-traceable detect path c outcomes total taken refused runs s lines h k kept =
    let report = report_of total taken refused in
    let entry =
      execution_entry (next_sequence s.entries) c report (map (kept_outcome path) outcomes) in
    let after = append_entry detect entry runs in
    let recorded =
      recorded_entry detect path c outcomes total taken refused runs s.entries lines h k
        (reads_file detect runs s) in
    (
      after,
      rw recorded refl,
      λ o id m v e t.
          let (ref, found, _) =
            resolve_event_trace-recorded detect id c report (map (trace_outcome path) outcomes) runs
              after entry (map (kept_outcome path) outcomes) (given_of id t) kept s recorded
              (normalize_outcomes-map path outcomes lines)
              (kept-Accepted path id o outcomes v e t m) in
          (written_trace detect (pos (suc (length s.entries))) c report ref, found),
    )
