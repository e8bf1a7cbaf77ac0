-- ===== src/RunLedger/Entities.antt =====
-- resolve_entity_trace of runtime/run_ledger.py.
use deterministic_audit_runt.Prelude.{
  ℕ, suc, String, Bool, true, not, ◌&&◌, Option, none, some, List, [], ◌∷◌, ◌++◌, if◌then◌else◌,
  num_eq, ltb,
}
use deterministic_audit_runt.Prelude.Int.{ltb_ℤ, ℤ}
use deterministic_audit_runt.Prelude.Sort.{sort}
use deterministic_audit_runt.Errors.{Result, ok, ◌>>=◌}
use deterministic_audit_runt.Json.{Json, str, item, get}
use deterministic_audit_runt.Json.Canonical.{equals}
use deterministic_audit_runt.EventStore.{LedgerFile}
use deterministic_audit_runt.Tasks.Text.{no_text, strip}
use deterministic_audit_runt.RunLedger.File.{read_entries, field_is, field_of, int_value}
use deterministic_audit_runt.RunLedger.Start.{ledger_check}
use deterministic_audit_runt.RunLedger.Traces.{build_trace_record, refs_of}

-- `preferred.index(value) if value in preferred else len(preferred)`
unfoldable pub rank_of : Json → List String → ℕ
unfolding equals
rank_of v [] = 0
rank_of v (p ∷ ps) = let later = rank_of v ps in if equals v (str p) then 0 else suc later

-- The rank of an event and the record of its trace.
pub record Match : Type 0 where
  pub rank : ℕ
  pub trace : Json

unfoldable pub matches_in : String → String → List String → Json → List Json → Result (List Match)
unfolding get equals item rank_of build_trace_record
matches_in entity_type entity_id preferred entry [] = ok []
matches_in entity_type entity_id preferred entry (event_ref ∷ refs) = do
  kind ← get "entity_type" event_ref
  id ← get "entity_id" event_ref
  let rest = matches_in entity_type entity_id preferred entry refs
  if equals kind (str entity_type) && equals id (str entity_id)
      then (do
        event_type ← item "event_type" event_ref
        trace ← build_trace_record entry event_ref "accepted"
        others ← rest
        ok (record { rank = rank_of event_type preferred; trace = trace } ∷ others))
      else rest

unfoldable pub matches_of : String → String → List String → List Json → Result (List Match)
unfolding field_is refs_of matches_in
matches_of entity_type entity_id preferred [] = ok []
matches_of entity_type entity_id preferred (entry ∷ entries) =
    let rest = matches_of entity_type entity_id preferred entries in
    if field_is "entry_type" "worker_execution" entry
    then (do
      accepted ← refs_of "accepted_events" entry
      here ← matches_in entity_type entity_id preferred entry accepted
      others ← rest
      ok (here ++ others))
    else rest

-- The order of the sequences, which are ints in the entries that this ledger writes. Another value is
-- put before every int, where the source compares it as Python does or raises TypeError.
abbrev pub int_le : Option ℤ → Option ℤ → Bool
int_le none n = true
int_le (some m) none = true
int_le (some m) (some n) = not (ltb_ℤ n m)

abbrev pub sequence_le : Option Json → Option Json → Bool
sequence_le a b = int_le (int_value a) (int_value b)

-- The key `(rank, sequence)`.
unfoldable pub match_le : Match → Match → Bool
unfolding field_of
match_le m n =
    if num_eq m.rank n.rank
    then sequence_le (field_of "sequence" m.trace) (field_of "sequence" n.trace)
    else ltb m.rank n.rank

-- The last match of the rank.
unfoldable pub last_of_rank : ℕ → List Match → Option Json
last_of_rank r [] = none
last_of_rank r (m ∷ ms) =
    let later = last_of_rank r ms in
    elim later [ none ↦ if num_eq m.rank r then some m.trace else none | some t ↦ some t ]

unfoldable pub best_trace : List Match → Option Json
unfolding last_of_rank
best_trace [] = none
best_trace (m ∷ ms) = last_of_rank m.rank (m ∷ ms)

-- `resolve_entity_trace`
unfoldable pub resolve_entity_trace :
    String → String → List String → LedgerFile → Result (Option Json)
unfolding ledger_check strip read_entries matches_of sort match_le best_trace
resolve_entity_trace entity_type entity_id preferred file = do
  _ ← ledger_check (not (no_text (strip entity_type)))
  _ ← ledger_check (not (no_text (strip entity_id)))
  entries ← read_entries file
  matches ← matches_of entity_type entity_id preferred entries
  ok (best_trace (sort match_le matches))
