-- ===== src/RunLedger/Traced.antt =====
-- resolve_event_trace finds what record_worker_execution recorded.
use deterministic_audit_runt.Prelude.{
  String, ◌≡◌, refl, false, some, none, Option, List, [], ◌∷◌, Bool-cases, inl, inr, ◌∙◌, ap,
  eq_refl, true, some_inj, suc, sym, ◌≢◌, ◌++◌, length,
}
use deterministic_audit_runt.Errors.{ok, >>=-eq-ok, ok_inj}
use deterministic_audit_runt.Json.{Json, str, obj, Fields, lookup, items, get, arr, nil}
use deterministic_audit_runt.Json.Canonical.{
  canonical, canonical_items, equals, equals-str, equals-str_inv,
}
use deterministic_audit_runt.Redaction.{redact_items, redact_value, redact_event}
use deterministic_audit_runt.RunLedger.{
  EventOutcome, outcome_dict, outcomes_named, outcome_is, event_in, execution_entry, context_fields,
  WorkerExecutionTraceContext, ExecutionReport, execution_fields, event_trace_in, field_is, refs_of,
  trace_or, iterate, resolve_event_trace, reversed, append_entry, ledger_check, read_entries,
  record_worker_execution, normalize_outcomes, next_sequence,
}
use deterministic_audit_runt.RunLedger.Persisted.{
  written_entry, field_of-written_entry, read_entries-append_entry,
}
use deterministic_audit_runt.Tasks.Types.{option_json}
use deterministic_audit_runt.Prelude.Int.{ℤ, pos}
use deterministic_audit_runt.RunLedger.Recording.{execution_fields}
use deterministic_audit_runt.RunLedger.File.{field_is, append_entry, read_entries, next_sequence}
use mathlib.Core.Path.{subst}
use deterministic_audit_runt.RunLedger.Traces.{
  event_trace_in, refs_of, trace_or, resolve_event_trace, reversed,
}
use deterministic_audit_runt.RunLedger.Context.{iterate}
use deterministic_audit_runt.RunLedger.Reach.{IsSound, reads_file}
use deterministic_audit_runt.RunLedger.Growth.{record_worker_execution_appends}
use deterministic_audit_runt.RunLedger.Written.{
  get-written_entry, default-written_entry, written_trace, trace_built,
}
use deterministic_audit_runt.EventStore.{append_line, LedgerFile}
use deterministic_audit_runt.RunLedger.Start.{ledger_check}
use deterministic_audit_runt.Tasks.Text.{no_text, strip}
use deterministic_audit_runt.RunLedger.Outcomes.{normalize_outcomes}
use deterministic_audit_runt.RunLedger.Numbered.{next_sequence-IsNumbered}

-- One of the outcomes is an accepted one of the event.
pub data Accepted (id : String) : List EventOutcome → Type 0 where
  here :
      (o : EventOutcome) {os : List EventOutcome}
      → outcome_is "accepted" o ≡ true
      → o.event_id ≡ some id
      → Accepted id (o ∷ os)
  there : (o : EventOutcome) {os : List EventOutcome} → Accepted id os → Accepted id (o ∷ os)

none_ne_some_json : {v : Json} → none ≢ some v
none_ne_some_json same = cc

module _ (detect : String → String → String) where
  written_dict :
      (fs : Fields) (name : String)
      → canonical (redact_value detect (obj fs) name) ≡ written_entry detect (obj fs)
  unfolding redact_value redact_event
  written_dict fs name = refl

  id_kept :
      (o : Option String)
      → canonical (redact_value detect (option_json o) "event_id") ≡ option_json o
  unfolding redact_value canonical
  id_kept none = refl
  id_kept (some s) = refl

  -- The id of an event is found in the written form of its outcome.
  event_id-written :
      (o : EventOutcome) (name : String)
      → get "event_id" (canonical (redact_value detect (outcome_dict o) name))
        ≡ ok (option_json o.event_id)
  unfolding outcome_dict lookup
  event_id-written o name =
      ap (get "event_id") (written_dict _ name)
      ∙ get-written_entry detect "event_id" _ refl
      ∙ ap ok (id_kept o.event_id)

  event_in_kept :
      (id name : String) (o : EventOutcome) (os : List EventOutcome)
      → (rest : (ref : Json) × (event_in id
              (items (canonical_items (redact_items detect (outcomes_named "accepted" os) name)))
            ≡ ok (some ref)))
      → (ref : Json) × (event_in id (
            canonical (redact_value detect (outcome_dict o) name)
            ∷ items (canonical_items (redact_items detect (outcomes_named "accepted" os) name)))
          ≡ ok (some ref))
  unfolding event_in
  event_in_kept id name o os (ref, later) =
      elim (Bool-cases (equals (option_json o.event_id) (str id))) [
        | inl q ↦ (
          canonical (redact_value detect (outcome_dict o) name),
          rw (event_id-written o name, q) refl,
        )
        | inr q ↦ (ref, rw (event_id-written o name, q) later)
      ]

  event_in_here :
      (id name : String) (o : EventOutcome) (vs : List Json)
      → o.event_id ≡ some id
      → event_in id (canonical (redact_value detect (outcome_dict o) name) ∷ vs)
        ≡ ok (some (canonical (redact_value detect (outcome_dict o) name)))
  unfolding event_in
  event_in_here id name o vs e = rw (event_id-written o name, e, equals-str id id, eq_refl id) refl

  event_in-Accepted :
      (id name : String) (os : List EventOutcome)
      → Accepted id os
      → (ref : Json) × (event_in id
            (items (canonical_items (redact_items detect (outcomes_named "accepted" os) name)))
          ≡ ok (some ref))
  unfolding outcomes_named redact_value canonical
  event_in-Accepted id name [] none_there = elim none_there [ ]
  event_in-Accepted id name (_ ∷ os) (here o h e) = (
    canonical (redact_value detect (outcome_dict o) name),
    rw h (
        event_in_here id name o
          (items (canonical_items (redact_items detect (outcomes_named "accepted" os) name))) e),
  )
  event_in-Accepted id name (_ ∷ os) (there o later) =
      let (ref, found) = event_in-Accepted id name os later in
      elim (Bool-cases (outcome_is "accepted" o)) [
        | inl q ↦ let (kept, e) = event_in_kept id name o os (ref, found) in (kept, rw q e)
        | inr q ↦ (ref, rw q found)
      ]

  event_in-id :
      (id : String) (refs : List Json) {ref : Json}
      → event_in id refs ≡ ok (some ref)
      → get "event_id" ref ≡ ok (str id)
  unfolding event_in
  event_in-id id [] h = absurd (none_ne_some_json (ok_inj h))
  event_in-id id (r ∷ refs) h =
      let (found, read, rest) = >>=-eq-ok (get "event_id" r) _ h in
      elim (Bool-cases (equals found (str id))) [
        | inl q ↦
            subst (λ v. get "event_id" v ≡ ok (str id)) (some_inj (ok_inj (rw q at rest)))
              (read ∙ ap ok (equals-str_inv found id q))
        | inr q ↦ event_in-id id refs (rw q at rest)
      ]

  accepted_refs :
      (n : ℤ) (c : WorkerExecutionTraceContext) (e : ExecutionReport) (os : List EventOutcome)
      → refs_of "accepted_events" (written_entry detect (execution_entry n c e os))
        ≡ ok (
            items (
              canonical_items
                (redact_items detect (outcomes_named "accepted" os) "accepted_events")))
  unfolding refs_of execution_entry execution_fields context_fields lookup canonical redact_value
      iterate
  accepted_refs n c e os =
      rw (default-written_entry detect "accepted_events" (arr nil) (execution_fields n c e os) refl)
        refl

  worker_entry :
      (n : ℤ) (c : WorkerExecutionTraceContext) (e : ExecutionReport) (os : List EventOutcome)
      → detect "worker_execution" "entry_type" ≡ "worker_execution"
      → field_is "entry_type" "worker_execution" (written_entry detect (execution_entry n c e os))
        ≡ true
  unfolding field_is execution_entry execution_fields context_fields lookup canonical redact_value
  worker_entry n c e os h =
      rw (field_of-written_entry detect "entry_type" (execution_fields n c e os), h) refl

  newest_traced :
      (id : String) (n : ℤ) (c : WorkerExecutionTraceContext) (e : ExecutionReport)
      (os : List EventOutcome) (older : List Json)
      → detect "worker_execution" "entry_type" ≡ "worker_execution"
      → Accepted id os
      → (ref : Json) × (event_trace_in id (written_entry detect (execution_entry n c e os) ∷ older)
          ≡ ok (some (written_trace detect n c e ref)))
        × (get "event_id" ref ≡ ok (str id))
  unfolding event_trace_in trace_or
  newest_traced id n c e os older h accepted =
      let (ref, found) = event_in-Accepted id "accepted_events" os accepted in
      (
        ref,
        rw (worker_entry n c e os h, accepted_refs n c e os, found, trace_built detect n c e os ref)
            refl,
        event_in-id id
            (items (
              canonical_items
                (redact_items detect (outcomes_named "accepted" os) "accepted_events")))
            found,
      )

  reads_back :
      (file after : LedgerFile) (s : IsSound detect file) (fs : Fields)
      → append_entry detect (obj fs) file ≡ after
      → read_entries after ≡ ok (s.entries ++ written_entry detect (obj fs) ∷ [])
  unfolding append_entry append_line read_entries
  reads_back file after s fs grown =
      ap read_entries (sym (ap (append_entry detect (obj fs)) s.ends ∙ grown))
      ∙ read_entries-append_entry detect s.lines s.entries fs s.reads

  reversed-append : (es : List Json) (e : Json) → reversed (es ++ e ∷ []) ≡ e ∷ reversed es
  unfolding reversed
  reversed-append [] e = refl
  reversed-append (d ∷ es) e = rw (reversed-append es e) refl

  -- On a ledger that the code has written, an event among the accepted outcomes of an execution is
  -- resolved, as soon as the execution is recorded, to the trace of this execution: its sequence,
  -- its run, task and digests as they were written, and an outcome with the id of the event. The
  -- redaction is asked to leave the text "worker_execution" alone.
  pub resolve_event_trace-recorded :
      (id : String) (c : WorkerExecutionTraceContext) (e : ExecutionReport) (outcomes : List Json)
      (file after : LedgerFile) (entry : Json) (os : List EventOutcome)
      → no_text (strip id) ≡ false
      → detect "worker_execution" "entry_type" ≡ "worker_execution"
      → (s : IsSound detect file)
      → record_worker_execution detect c e outcomes file ≡ ok (entry, after)
      → normalize_outcomes outcomes ≡ ok os
      → Accepted id os
      → (ref : Json) × (resolve_event_trace id after
          ≡ ok (some (written_trace detect (pos (suc (length s.entries))) c e ref)))
        × (get "event_id" ref ≡ ok (str id))
  unfolding resolve_event_trace ledger_check execution_entry
  resolve_event_trace-recorded id c e outcomes file after entry os given kept s h normal accepted =
      let (written_os, written_normal, _, grown) =
        record_worker_execution_appends detect c e outcomes file s.entries entry after
          (reads_file detect file s) h in
      let same_os : written_os ≡ os = ok_inj (sym written_normal ∙ normal) in
      let next = next_sequence-IsNumbered s.entries s.numbered in
      let n = pos (suc (length s.entries)) in
      let appended : append_entry detect (execution_entry n c e os) file ≡ after =
        ap (λ m. append_entry detect (execution_entry m c e os) file) (sym next)
        ∙ ap (λ l. append_entry detect (execution_entry (next_sequence s.entries) c e l) file)
            (sym same_os)
        ∙ grown in
      let (ref, traced, named) = newest_traced id n c e os (reversed s.entries) kept accepted in
      (
        ref,
        rw
            (
              given,
              reads_back file after s (execution_fields n c e os) appended,
              reversed-append s.entries (written_entry detect (execution_entry n c e os)),
            )
            traced,
        named,
      )
