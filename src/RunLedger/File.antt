-- ===== src/RunLedger/File.antt =====
-- The file of runtime/run_ledger.py: its entries, the next numbers, and the writing of an entry. The
-- file is that of EventStore/Ledger; `broken` is a line that is no JSON.
use Prim.Native.Char.{code}
use deterministic_audit_runt.Prelude.{
  ℕ, zero, suc, num_eq, String, Bool, true, false, Option, none, some, List, [], ◌∷◌, ◌==◌,
  if◌then◌else◌, max, not, ◌||◌,
}
use deterministic_audit_runt.Prelude.Int.{ℤ, pos, negsuc, ltb_ℤ}
use deterministic_audit_runt.Prelude.Decimal.{padded, is_decimal, number_from}
use deterministic_audit_runt.Errors.{Result, ok, err, ◌>>=◌, ledger_error, value_error}
use deterministic_audit_runt.Json.{Json, bool, int, str, obj, lookup, is_obj}
use deterministic_audit_runt.Json.Canonical.{canonical}
use deterministic_audit_runt.Redaction.{redact_event}
use deterministic_audit_runt.EventStore.{
  LedgerFile, Line, blank, broken, value, all_lines, append_line,
}
use deterministic_audit_runt.RunLedger.Digits.{are_digits, int_after, is_too_long}
use deterministic_audit_runt.Tasks.Text.{no_text}

unfoldable pub read_lines : List Line → Result (List Json)
read_lines [] = ok []
read_lines (blank ∷ ls) = read_lines ls
read_lines (broken ∷ ls) = err ledger_error
read_lines (value v ∷ ls) =
    let rest = read_lines ls in
    if is_obj v then (do entries ← rest; ok (v ∷ entries)) else err ledger_error

-- `read_entries`
unfoldable pub read_entries : LedgerFile → Result (List Json)
unfolding read_lines
read_entries file = read_lines (all_lines file)

-- `entry.get(key)` on an entry, which is a dict.
unfoldable pub field_of : String → Json → Option Json
unfolding lookup
field_of k (obj fs) = lookup k fs
field_of k _ = none

abbrev pub is_text : String → Option Json → Bool
is_text s (some (str t)) = t == s
is_text s _ = false

-- `entry.get(key) == text`
unfoldable pub field_is : String → String → Json → Bool
unfolding field_of
field_is k s entry = is_text s (field_of k entry)

-- The value of an int, and of a bool, which is one.
abbrev pub int_value : Option Json → Option ℤ
int_value (some (int n)) = some n
int_value (some (bool true)) = some (pos 1)
int_value (some (bool false)) = some (pos 0)
int_value _ = none

abbrev pub max_int : ℤ → ℤ → ℤ
max_int a b = if ltb_ℤ a b then b else a

abbrev pub next_int : ℤ → ℤ
next_int (pos n) = pos (suc n)
next_int (negsuc zero) = pos 0
next_int (negsuc (suc n)) = negsuc n

abbrev pub put_option {ℓ} : {A : Type ℓ} → Option A → List A → List A
put_option none rest = rest
put_option (some a) rest = a ∷ rest

-- `[entry["sequence"] for entry in entries if isinstance(entry.get("sequence"), int)]`
unfoldable pub sequences : List Json → List ℤ
unfolding field_of
sequences [] = []
sequences (entry ∷ entries) = put_option (int_value (field_of "sequence" entry)) (sequences entries)

-- `max(numbers, default=0)`
unfoldable pub max_of : List ℤ → ℤ
max_of [] = pos 0
max_of (n ∷ []) = n
max_of (n ∷ m ∷ ns) = max_int n (max_of (m ∷ ns))

-- `_next_sequence`
unfoldable pub next_sequence : List Json → ℤ
unfolding sequences max_of
next_sequence entries = next_int (max_of (sequences entries))

-- `text + suffix`
unfoldable pub join_text : String → String → String
join_text String.[] t = t
join_text (String.◌∷◌ c s) t = String.◌∷◌ c (join_text s t)

-- `_entry_id`: a minus sign counts for the width of 8.
unfoldable pub entry_id : ℤ → String
unfolding padded join_text
entry_id (pos n) = join_text "trace_" (padded 8 n)
entry_id (negsuc n) = join_text "trace_-" (padded 7 (suc n))

-- `text.startswith(prefix)`, with what follows.
unfoldable pub strip_prefix : String → String → Option String
strip_prefix String.[] s = some s
strip_prefix (String.◌∷◌ c p) String.[] = none
strip_prefix (String.◌∷◌ c p) (String.◌∷◌ d s) =
    let rest = strip_prefix p s in if num_eq (code c) (code d) then rest else none

-- `int` of a text that stands for `n`.
unfoldable pub limited : String → ℕ → Result (Option ℕ)
unfolding is_too_long
limited s n = if is_too_long s then err value_error else ok (some n)

-- The number behind "run_", if `isdigit` holds of what follows; `int` reads decimal digits only. The
-- digits of ASCII are read first.
unfoldable pub digits_number : String → Result (Option ℕ)
unfolding is_decimal number_from are_digits int_after limited
digits_number s =
    if is_decimal s
    then limited s (number_from 0 s)
    else if no_text s || not (are_digits s)
    then ok none
    else int_after 0 s >>= limited s

unfoldable pub run_number : String → Result (Option ℕ)
unfolding strip_prefix digits_number
run_number id = elim (strip_prefix "run_" id) [ none ↦ ok none | some s ↦ digits_number s ]

abbrev pub text_of : Option Json → Option String
text_of (some (str s)) = some s
text_of _ = none

unfoldable pub number_of : Option String → Result (Option ℕ)
unfolding run_number
number_of none = ok none
number_of (some id) = run_number id

-- The numbers of the runs that were started.
unfoldable pub run_numbers : List Json → Result (List ℕ)
unfolding field_is number_of
run_numbers [] = ok []
run_numbers (entry ∷ entries) =
    let rest = run_numbers entries in
    if field_is "entry_type" "run_started" entry
    then (do
      number ← number_of (text_of (field_of "run_id" entry))
      numbers ← rest
      ok (put_option number numbers))
    else rest

unfoldable pub max_number : List ℕ → ℕ
max_number [] = 0
max_number (n ∷ ns) = max n (max_number ns)

unfoldable pub run_id_of : ℕ → String
unfolding join_text padded
run_id_of n = join_text "run_" (padded 4 n)

-- `f"run_{n:04d}"`
unfoldable pub new_run_id : ℕ → Result String
unfolding run_id_of padded is_too_long
new_run_id n = if is_too_long (padded 4 n) then err value_error else ok (run_id_of n)

-- `_next_run_id`
unfoldable pub next_run_id : List Json → Result String
unfolding run_numbers max_number new_run_id
next_run_id entries = do numbers ← run_numbers entries; new_run_id (suc (max_number numbers))

-- `_append_entry`
unfoldable pub append_entry : (String → String → String) → Json → LedgerFile → LedgerFile
unfolding canonical redact_event
append_entry detect entry file = append_line (canonical (redact_event detect entry)) file
