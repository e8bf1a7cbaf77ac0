-- ===== src/RunLedger/Growth.antt =====
-- What start_run and record_worker_execution do to the file.
use deterministic_audit_runt.Prelude.{
  String, ◌≡◌, some, none, Option, List, ap, inl, inr, ◌⊎◌, first, not, ◌&&◌,
}
use deterministic_audit_runt.Errors.{ok, >>=-eq-ok, ok_inj}
use deterministic_audit_runt.Json.{Json, item}
use deterministic_audit_runt.Tasks.Text.{no_text, strip}
use deterministic_audit_runt.EventStore.{LedgerFile}
use deterministic_audit_runt.RunLedger.{
  read_entries, ledger_check, start_run, start_or_resume, resume_run, start_entry, RunStartResult,
  chosen_run_id, is_start_of, append_entry, next_sequence, WorkerExecutionTraceContext,
  ExecutionReport, EventOutcome, record_worker_execution, execution_entry, normalize_outcomes,
  is_valid_execution, field_is,
}
use deterministic_audit_runt.RunLedger.File.{field_is}

module _ (detect : String → String → String) where
  resumed-same :
      (run_id audit_id snapshot_ref : String) (file : LedgerFile) (existing : Json)
      (r : RunStartResult) (after : LedgerFile)
      → resume_run run_id audit_id snapshot_ref file existing ≡ ok (r, after)
      → file ≡ after
  unfolding resume_run
  resumed-same run_id audit_id snapshot_ref file existing r after h =
      let (_, _, h1) =
        >>=-eq-ok
          (ledger_check (
            field_is "audit_id" audit_id existing && field_is "snapshot_ref" snapshot_ref existing))
          _ h in
      let (_, _, h2) = >>=-eq-ok (item "entry_id" existing) _ h1 in
      let (_, _, h3) = >>=-eq-ok (item "sequence" existing) _ h2 in ap (λ p. p.1) (ok_inj h3)

  started_cases :
      (audit_id snapshot_ref run_id : String) (metadata : Json) (file : LedgerFile) (es : List Json)
      (found : Option Json) (r : RunStartResult) (after : LedgerFile)
      → start_or_resume detect audit_id snapshot_ref metadata file es run_id found ≡ ok (r, after)
      → (file ≡ after)
        ⊎ (append_entry detect (start_entry es run_id audit_id snapshot_ref metadata) file ≡ after)
  unfolding start_or_resume
  started_cases audit_id snapshot_ref run_id metadata file es (some e) r after h =
      inl (resumed-same run_id audit_id snapshot_ref file e r after h)
  started_cases audit_id snapshot_ref run_id metadata file es none r after h =
      inr (ap (λ p. p.1) (ok_inj h))

  -- start_run leaves the file as it is, or appends the entry of the run.
  pub start_run_cases :
      (audit_id snapshot_ref : String) (run_id : Option String) (metadata : Json)
      (file : LedgerFile) (es : List Json) (r : RunStartResult) (after : LedgerFile)
      → read_entries file ≡ ok es
      → start_run detect audit_id snapshot_ref run_id metadata file ≡ ok (r, after)
      → (id : String) × ((file ≡ after)
          ⊎ (append_entry detect (start_entry es id audit_id snapshot_ref metadata) file ≡ after))
  unfolding start_run
  start_run_cases audit_id snapshot_ref run_id metadata file es r after reads h =
      let (_, _, h1) = >>=-eq-ok (ledger_check (not (no_text (strip audit_id)))) _ h in
      let (_, _, h2) = >>=-eq-ok (ledger_check (not (no_text (strip snapshot_ref)))) _ h1 in
      let (id, _, h3) = >>=-eq-ok (chosen_run_id run_id es) _ (rw reads at h2) in
      (
        id,
        started_cases audit_id snapshot_ref id metadata file es (first (is_start_of id) es) r after
            h3,
      )

  -- record_worker_execution appends the entry that it returns.
  pub record_worker_execution_appends :
      (c : WorkerExecutionTraceContext) (e : ExecutionReport) (outcomes : List Json)
      (file : LedgerFile) (es : List Json) (entry : Json) (after : LedgerFile)
      → read_entries file ≡ ok es
      → record_worker_execution detect c e outcomes file ≡ ok (entry, after)
      → (os : List EventOutcome) × (normalize_outcomes outcomes ≡ ok os)
        × (execution_entry (next_sequence es) c e os ≡ entry)
        × (append_entry detect (execution_entry (next_sequence es) c e os) file ≡ after)
  unfolding record_worker_execution
  record_worker_execution_appends c e outcomes file es entry after reads h =
      let (_, _, h1) = >>=-eq-ok (ledger_check (is_valid_execution c e)) _ h in
      let (os, normal, h2) = >>=-eq-ok (normalize_outcomes outcomes) _ (rw reads at h1) in
      let answer = ok_inj h2 in (os, normal, ap (λ p. p.0) answer, ap (λ p. p.1) answer)
