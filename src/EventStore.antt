-- ===== src/EventStore.antt =====
-- runtime/event_store.py: the append-only NDJSON ledger. The file is the list of its lines and what
-- an interrupted write left after the last line break. The validator of the third-party package
-- jsonschema is the parameter `schema_errors`, and the patterns of the redaction are `detect`.
mod Ledger
pub mod Repair
pub mod Scan
pub mod Append
pub mod Answer
pub mod Retry
pub mod Lines
pub mod Unique
pub mod Torn
pub mod Lock
unfoldable pub use Ledger.*
use deterministic_audit_runt.Prelude.{
  ℕ, ◌+◌, String, Bool, true, false, not, ◌&&◌, Option, none, some, List, [], ◌∷◌, is_empty,
  if◌then◌else◌,
}
use deterministic_audit_runt.Errors.{
  Result, ok, err, ◌>>=◌, invalid_event, event_id_conflict, idempotency_conflict,
}
use deterministic_audit_runt.Json.{Json, str, item}
use deterministic_audit_runt.Json.Canonical.{canonical, same, equals}
use deterministic_audit_runt.Redaction.{redact_event}

pub data AppendOutcome : Type 0 where
  appended duplicate : AppendOutcome

pub data MatchReason : Type 0 where
  by_event_id by_idempotency_key : MatchReason

pub record AppendResult : Type 0 where
  pub outcome : AppendOutcome
  pub event_id : Json
  pub line_number : ℕ
  pub matched_on : Option MatchReason

-- The text of a line, as the value that it encodes.
abbrev pub serialize_event : Json → Json
serialize_event = canonical

-- The two tests `same_audit and same_idempotency_key`, whose four look-ups are all made.
unfoldable pub same_key : Json → Json → Result Bool
same_key existing candidate = do
  audit ← item "audit_id" existing
  candidate_audit ← item "audit_id" candidate
  key ← item "idempotency_key" existing
  candidate_key ← item "idempotency_key" candidate
  ok (equals audit candidate_audit && equals key candidate_key)

unfoldable pub find_from : Json → ℕ → List StoredEvent → Result (Option StoredEvent × ℕ)
unfolding same_key
find_from candidate last [] = ok (none, last)
find_from candidate last (stored ∷ rest) = do
  id ← item "id" stored.event
  candidate_id ← item "id" candidate
  let same_text = same (serialize_event stored.event) (serialize_event candidate)
  let found = ok (some stored, stored.line_number)
  let later = find_from candidate stored.line_number rest
  if equals id candidate_id then (if same_text then found else err event_id_conflict) else do
    matched ← same_key stored.event candidate
    if matched then (if same_text then found else err idempotency_conflict) else later

unfoldable pub find_duplicate_or_conflict :
    Json → List StoredEvent → Result (Option StoredEvent × ℕ)
unfolding find_from
find_duplicate_or_conflict candidate stored = find_from candidate 0 stored

-- The second test reads the idempotency keys only if the audits agree.
unfoldable pub match_reason : Json → Json → Result (Option MatchReason)
match_reason existing candidate = do
  id ← item "id" existing
  candidate_id ← item "id" candidate
  if equals id candidate_id then ok (some by_event_id) else do
    audit ← item "audit_id" existing
    candidate_audit ← item "audit_id" candidate
    if not (equals audit candidate_audit) then ok none else do
      key ← item "idempotency_key" existing
      candidate_key ← item "idempotency_key" candidate
      ok (if equals key candidate_key then some by_idempotency_key else none)

unfoldable pub get_from : String → List StoredEvent → Result (Option Json)
get_from event_id [] = ok none
get_from event_id (stored ∷ rest) = do
  id ← item "id" stored.event
  let later = get_from event_id rest
  if equals id (str event_id) then ok (some stored.event) else later

unfoldable pub get_event : String → LedgerFile → Result (Option Json) × LedgerFile
unfolding get_from
get_event event_id f = let (r, f') = iter_stored_events none f in (r >>= get_from event_id, f')

unfoldable pub has_key_from : String → List StoredEvent → Result Bool
has_key_from key [] = ok false
has_key_from key (stored ∷ rest) = do
  k ← item "idempotency_key" stored.event
  let later = has_key_from key rest
  if equals k (str key) then ok true else later

unfoldable pub has_idempotency_key : String → String → LedgerFile → Result Bool × LedgerFile
unfolding has_key_from
has_idempotency_key audit_id key f =
    let (r, f') = iter_stored_events (some audit_id) f in (r >>= has_key_from key, f')

module _ (schema_errors : Json → List String) (detect : String → String → String) where
  unfoldable pub validate_event : Json → Result (Unit {0})
  validate_event event = if is_empty (schema_errors event) then ok tt else err invalid_event

  -- The last part of `append_event`: the line is written before the result reads the id.
  unfoldable pub conclude :
      Json → Option StoredEvent × ℕ → LedgerFile → Result AppendResult × LedgerFile
  unfolding match_reason
  conclude event (some stored, last) f = (
    do
      id ← item "id" stored.event
      reason ← match_reason stored.event event
      ok (record {
        outcome = duplicate;
        event_id = id;
        line_number = stored.line_number;
        matched_on = reason;
      }),
    f,
  )
  conclude event (none, last) f = (
    do
      id ← item "id" event
      ok (record { outcome = appended; event_id = id; line_number = last + 1; matched_on = none }),
    append_line (serialize_event (redact_event detect event)) f,
  )

  -- Reads the ledger once more, which repairs it once more, and looks for the event there.
  unfoldable pub scan : Json → LedgerFile → Result (Option StoredEvent × ℕ) × LedgerFile
  unfolding find_duplicate_or_conflict
  scan event f =
      let (stored, f') = iter_stored_events none f in
      (stored >>= find_duplicate_or_conflict (redact_event detect event), f')

  unfoldable pub settle :
      Json → Result (Option StoredEvent × ℕ) × LedgerFile → Result AppendResult × LedgerFile
  unfolding conclude
  settle event (err e, f) = (err e, f)
  settle event (ok found, f) = conclude event found f

  -- The body under the ledger's lock, after the repair.
  unfoldable pub append_locked : Json → LedgerFile → Result AppendResult × LedgerFile
  unfolding scan settle
  append_locked event f = settle event (scan event f)

  unfoldable pub append_valid :
      Json → LedgerFile → Result (Unit {0}) → Result AppendResult × LedgerFile
  unfolding append_locked
  append_valid event f (err e) = (err e, f)
  append_valid event f (ok _) = after_repair f (append_locked event)

  unfoldable pub append_event : Json → LedgerFile → Result AppendResult × LedgerFile
  unfolding validate_event append_valid
  append_event event f = append_valid event f (validate_event event)
