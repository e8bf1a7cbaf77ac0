-- ===== src/EventStore/Ledger.antt =====
-- The ledger file of runtime/event_store.py: reading it, repairing it and appending a line.
use deterministic_audit_runt.Prelude.{
  ℕ, ◌+◌, String, Bool, true, false, not, ◌&&◌, Option, none, some, List, [], ◌∷◌, ◌++◌, is_empty,
  if◌then◌else◌,
}
use deterministic_audit_runt.Errors.{Result, ok, err, ◌>>=◌, store_error}
use deterministic_audit_runt.Json.{Json, str, get, is_obj}
use deterministic_audit_runt.Json.Canonical.{equals}

-- What stands between two line breaks: white space, a JSON value, or bytes that do not decode.
pub data Line : Type 0 where
  blank broken : Line
  value : Json → Line

pub record LedgerFile : Type 0 where
  pub lines : List Line
  pub tail : Option Line

pub record StoredEvent : Type 0 where
  pub line_number : ℕ
  pub event : Json

abbrev pub is_sound : Line → Bool
is_sound blank = true
is_sound broken = false
is_sound (value v) = is_obj v

abbrev pub has_tail : LedgerFile → Bool
has_tail f = elim f.tail [ none ↦ false | some l ↦ true ]

-- The loop over `split_lines`. `more` says that an unterminated line follows these.
unfoldable pub repair_lines : Bool → List Line → Result (List Line)
repair_lines more [] = ok []
repair_lines more (l ∷ ls) =
    if is_sound l
    then (do rest ← repair_lines more ls; ok (l ∷ rest))
    else if is_empty ls && not more
    then ok []
    else err store_error

abbrev pub sound_tail : Option Line → Option Line
sound_tail none = none
sound_tail (some l) = if is_sound l then some l else none

-- `_repair_trailing_partial_write`. Where it raises, nothing has been cut off yet.
unfoldable pub repair : LedgerFile → Result LedgerFile
unfolding repair_lines
repair f = do
  lines ← repair_lines (has_tail f) f.lines
  ok (record { lines = lines; tail = sound_tail f.tail })

-- The file is repaired first, and an error of the repair leaves it as it is.
unfoldable pub after_repair :
    {A : Type 0} → LedgerFile → (LedgerFile → Result A × LedgerFile) → Result A × LedgerFile
unfolding repair
after_repair f k = elim (repair f) [ err e ↦ (err e, f) | ok f' ↦ k f' ]

-- `recover_ledger`
unfoldable pub recover_ledger : LedgerFile → Result (Unit {0}) × LedgerFile
unfolding after_repair
recover_ledger f = after_repair f (λ f'. (ok tt, f'))

abbrev pub all_lines : LedgerFile → List Line
all_lines f = elim f.tail [ none ↦ f.lines | some l ↦ f.lines ++ l ∷ [] ]

unfoldable pub matches_audit : Option String → Json → Result Bool
matches_audit none event = ok true
matches_audit (some audit_id) event = do a ← get "audit_id" event; ok (equals a (str audit_id))

-- The lines from number `n` on, blank ones passed over.
unfoldable pub stored_from : ℕ → Option String → List Line → Result (List StoredEvent)
unfolding matches_audit
stored_from n audit_id [] = ok []
stored_from n audit_id (blank ∷ ls) = stored_from (n + 1) audit_id ls
stored_from n audit_id (broken ∷ ls) = err store_error
stored_from n audit_id (value v ∷ ls) = do
  keep ← matches_audit audit_id v
  rest ← stored_from (n + 1) audit_id ls
  ok (if keep then record { line_number = n; event = v } ∷ rest else rest)

-- The generator, run to its end.
unfoldable pub iter_stored_events :
    Option String → LedgerFile → Result (List StoredEvent) × LedgerFile
unfolding after_repair stored_from
iter_stored_events audit_id f = after_repair f (λ f'. (stored_from 1 audit_id (all_lines f'), f'))

abbrev pub joined : Line → Json → Line
joined blank v = value v
joined _ v = broken

-- One write of the text and a line break at the end of the file. Behind a complete object that was
-- left without its line break the two texts share a line, which no longer decodes.
unfoldable pub append_line : Json → LedgerFile → LedgerFile
append_line serialized f = elim f.tail [
  | none ↦ record { lines = f.lines ++ value serialized ∷ []; tail = none }
  | some l ↦ record { lines = f.lines ++ joined l serialized ∷ []; tail = none }
]
