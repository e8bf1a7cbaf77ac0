-- ===== src/RunLedger/Written.antt =====
-- The entry of an execution as it is written, and the trace that is built from it.
use mathlib.Core.Option
use deterministic_audit_runt.Prelude.{String, ◌≡◌, refl, some, List, ◌∙◌, ap}
use deterministic_audit_runt.Errors.{ok}
use deterministic_audit_runt.Json.{
  Json, str, obj, Fields, lookup, item, get, int, get_default, field, end,
}
use deterministic_audit_runt.Json.Canonical.{canonical}
use deterministic_audit_runt.Redaction.{redact_value, redact_event}
use deterministic_audit_runt.RunLedger.{
  field_of, EventOutcome, build_trace_record, execution_entry, context_fields,
  WorkerExecutionTraceContext, ExecutionReport, execution_fields, entry_id, stripped_option,
}
use deterministic_audit_runt.RunLedger.Persisted.{
  written_entry, field_of-written_entry, get_default-written_entry,
}
use deterministic_audit_runt.Tasks.Types.{option_json}
use deterministic_audit_runt.Prelude.Int.{ℤ}
use deterministic_audit_runt.RunLedger.Recording.{execution_fields, stripped_option}
use deterministic_audit_runt.RunLedger.File.{entry_id}
use mathlib.Core.Option.{none-ne-some}

module _ (detect : String → String → String) where
  pub item-written_entry :
      (k : String) (fs : Fields) {v : Json}
      → lookup k fs ≡ some v
      → item k (written_entry detect (obj fs)) ≡ ok (canonical (redact_value detect v k))
  unfolding item field_of redact_event canonical
  item-written_entry k fs h =
      rw
        (field_of-written_entry detect k fs
          ∙ ap (Option.map (λ w. canonical (redact_value detect w k))) h)
        refl

  pub get-written_entry :
      (k : String) (fs : Fields) {v : Json}
      → lookup k fs ≡ some v
      → get k (written_entry detect (obj fs)) ≡ ok (canonical (redact_value detect v k))
  unfolding get field_of redact_event canonical
  get-written_entry k fs h =
      rw
        (field_of-written_entry detect k fs
          ∙ ap (Option.map (λ w. canonical (redact_value detect w k))) h)
        refl

  pub default-written_entry :
      (k : String) (default : Json) (fs : Fields) {v : Json}
      → lookup k fs ≡ some v
      → get_default k default (written_entry detect (obj fs))
        ≡ ok (canonical (redact_value detect v k))
  default-written_entry k default fs h =
      get_default-written_entry detect k default fs
      ∙ ap
          (λ o.
            ok (Option.get_or (Option.map (λ w. canonical (redact_value detect w k)) o) default))
          h

  abbrev pub written : String → Json → Json
  written k v = canonical (redact_value detect v k)

  -- The trace of an accepted outcome of an execution.
  abbrev pub written_trace : ℤ → WorkerExecutionTraceContext → ExecutionReport → Json → Json
  written_trace n c e ref = obj (
      field "entry_id" (written "entry_id" (str (entry_id n))) (
        field "sequence" (written "sequence" (int n)) (
          field "run_id" (written "run_id" (str c.run_id)) (
            field "audit_id" (written "audit_id" (str c.audit_id)) (
              field "task_id" (written "task_id" (str c.task_id)) (
                field "slice_id" (written "slice_id" (str c.slice_id)) (
                  field "slice_fingerprint"
                    (written "slice_fingerprint" (option_json c.slice_fingerprint))
                    (field "worker_role" (written "worker_role" (str c.worker_role)) (
                      field "snapshot_ref" (written "snapshot_ref" (option_json c.snapshot_ref)) (
                        field "input_digest" (written "input_digest" (option_json c.input_digest)) (
                          field "output_digest"
                            (written "output_digest" (option_json c.output_digest))
                            (field "prompt_digest"
                              (written "prompt_digest" (option_json c.prompt_digest))
                              (field "raw_output_digest"
                                (written "raw_output_digest" (option_json c.raw_output_digest))
                                (field "adapter_invocation"
                                  (written "adapter_invocation" (c.adapter_invocation))
                                  (field "execution_status"
                                    (written "execution_status" (str e.execution_status))
                                    (field "failure_stage"
                                      (written "failure_stage"
                                        (option_json (stripped_option e.failure_stage)))
                                      (field "processing_outcome" (str "accepted")
                                        (field "event" ref end))))))))))))))))))

  pub trace_built :
      (n : ℤ) (c : WorkerExecutionTraceContext) (e : ExecutionReport) (os : List EventOutcome)
      (ref : Json)
      → build_trace_record (written_entry detect (execution_entry n c e os)) ref "accepted"
        ≡ ok (written_trace n c e ref)
  unfolding build_trace_record execution_entry execution_fields context_fields lookup
  trace_built n c e os ref =
      let fs = execution_fields n c e os in
      rw
        (
          item-written_entry "entry_id" fs refl,
          item-written_entry "sequence" fs refl,
          item-written_entry "run_id" fs refl,
          item-written_entry "audit_id" fs refl,
          item-written_entry "task_id" fs refl,
          item-written_entry "slice_id" fs refl,
          get-written_entry "slice_fingerprint" fs refl,
          item-written_entry "worker_role" fs refl,
          get-written_entry "snapshot_ref" fs refl,
          item-written_entry "input_digest" fs refl,
          item-written_entry "output_digest" fs refl,
          get-written_entry "prompt_digest" fs refl,
          get-written_entry "raw_output_digest" fs refl,
          default-written_entry "adapter_invocation" (obj end) fs refl,
          get-written_entry "execution_status" fs refl,
          get-written_entry "failure_stage" fs refl,
        )
        refl
