-- ===== src/RunLedger/Start.antt =====
-- start_run of runtime/run_ledger.py.
use deterministic_audit_runt.Prelude.{
  String, Bool, true, false, not, ◌&&◌, Option, none, some, List, first, if◌then◌else◌,
}
use deterministic_audit_runt.Errors.{Result, ok, err, ◌>>=◌, ledger_error}
use deterministic_audit_runt.Json.{Json, int, str, obj, field, end, item, is_falsy}
use deterministic_audit_runt.EventStore.{LedgerFile}
use deterministic_audit_runt.Tasks.Text.{no_text, strip}
use deterministic_audit_runt.RunLedger.File.{
  read_entries, field_is, next_sequence, entry_id, next_run_id, append_entry,
}

pub record RunStartResult : Type 0 where
  pub run_id : String
  pub entry_id : Json
  pub sequence : Json

unfoldable pub ledger_check : Bool → Result (Unit {0})
ledger_check true = ok tt
ledger_check false = err ledger_error

abbrev pub is_start_of : String → Json → Bool
is_start_of run_id entry =
    field_is "entry_type" "run_started" entry && field_is "run_id" run_id entry

-- `run_id or self._next_run_id(entries)`
unfoldable pub chosen_run_id : Option String → List Json → Result String
unfolding next_run_id
chosen_run_id none entries = next_run_id entries
chosen_run_id (some id) entries = if no_text id then next_run_id entries else ok id

-- The entry of a run, with `metadata or {}`.
unfoldable pub start_entry : List Json → String → String → String → Json → Json
unfolding entry_id next_sequence is_falsy
start_entry entries run_id audit_id snapshot_ref metadata =
    let sequence = next_sequence entries in
    obj (
      field "schema_version" (str "1.0.0") (
        field "entry_type" (str "run_started") (
          field "entry_id" (str (entry_id sequence)) (
            field "sequence" (int sequence) (
              field "run_id" (str run_id) (
                field "audit_id" (str audit_id) (
                  field "snapshot_ref" (str snapshot_ref)
                    (field "metadata" (if is_falsy metadata then obj end else metadata) end))))))))

-- An entry of the run is there: it must be of the same audit and snapshot.
unfoldable pub resume_run :
    String → String → String → LedgerFile → Json → Result (RunStartResult × LedgerFile)
unfolding ledger_check item
resume_run run_id audit_id snapshot_ref file existing = do
  _ ←
      ledger_check
        (field_is "audit_id" audit_id existing && field_is "snapshot_ref" snapshot_ref existing)
  id ← item "entry_id" existing
  sequence ← item "sequence" existing
  ok (record { run_id = run_id; entry_id = id; sequence = sequence }, file)

unfoldable pub start_or_resume :
    (String → String → String)
    → String
    → String
    → Json
    → LedgerFile
    → List Json
    → String
    → Option Json
    → Result (RunStartResult × LedgerFile)
unfolding resume_run start_entry append_entry
start_or_resume detect audit_id snapshot_ref metadata file entries run_id (some existing) =
    resume_run run_id audit_id snapshot_ref file existing
start_or_resume detect audit_id snapshot_ref metadata file entries run_id none =
    let sequence = next_sequence entries in
    ok (
      record { run_id = run_id; entry_id = str (entry_id sequence); sequence = int sequence },
      append_entry detect (start_entry entries run_id audit_id snapshot_ref metadata) file,
    )

-- `start_run`
unfoldable pub start_run :
    (String → String → String)
    → String
    → String
    → Option String
    → Json
    → LedgerFile
    → Result (RunStartResult × LedgerFile)
unfolding ledger_check strip read_entries chosen_run_id first start_or_resume
start_run detect audit_id snapshot_ref run_id metadata file = do
  _ ← ledger_check (not (no_text (strip audit_id)))
  _ ← ledger_check (not (no_text (strip snapshot_ref)))
  entries ← read_entries file
  id ← chosen_run_id run_id entries
  start_or_resume detect audit_id snapshot_ref metadata file entries id
      (first (is_start_of id) entries)
