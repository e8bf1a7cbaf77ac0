-- ===== src/RunLedger/FreshRun.antt =====
-- start_run without a run id starts a run of its own.
use deterministic_audit_runt.Prelude.{
  ℕ, suc, ◌≤◌, String, ◌≡◌, refl, true, false, Bool, some, none, Option, List, [], ◌∷◌, All,
  All-map, Bool-cases, inl, inr, ◌∙◌, ap, eq_iff, arith, first, &&-eq-true, some_inj, sym,
}
use deterministic_audit_runt.Prelude.Decimal.{padded-number, padded-is_decimal, padded}
use deterministic_audit_runt.Errors.{ok, >>=-eq-ok, ok_inj, Result, err, err_ne_ok}
use deterministic_audit_runt.Json.{Json, str, int}
use deterministic_audit_runt.EventStore.{LedgerFile}
use deterministic_audit_runt.Tasks.Text.{no_text, strip}
use deterministic_audit_runt.RunLedger.{
  field_of, field_is, is_text, text_of, number_of, run_number, run_numbers, max_number, run_id_of,
  next_run_id, is_start_of, start_run, start_entry, start_or_resume, read_entries, append_entry,
  next_sequence, entry_id, put_option, join_text, strip_prefix, ledger_check, chosen_run_id,
  digits_number, limited, new_run_id, is_too_long,
}
use deterministic_audit_runt.RunLedger.File.{
  join_text, strip_prefix, digits_number, limited, new_run_id,
}
use deterministic_audit_runt.RunLedger.Start.{ledger_check, chosen_run_id}
use mathlib.Core.Path.{subst}
use deterministic_audit_runt.RunLedger.Digits.{is_too_long}

limited-inv : (s : String) (n : ℕ) (o : Option ℕ) → limited s n ≡ ok o → o ≡ some n
unfolding limited
limited-inv s n o h = elim (Bool-cases (is_too_long s)) [
  | inl q ↦ absurd (err_ne_ok (rw q at h))
  | inr q ↦ sym (ok_inj (rw q at h))
]

-- The number of a run is read back from its id, if its digits are not too many.
pub run_number-run_id_of : (n : ℕ) (o : Option ℕ) → run_number (run_id_of n) ≡ ok o → o ≡ some n
unfolding run_number run_id_of join_text strip_prefix digits_number
run_number-run_id_of n o h =
    limited-inv (padded 4 n) n o (rw (padded-is_decimal 4 n, padded-number 4 n) at h)

new_run_id-inv : (n : ℕ) (id : String) → new_run_id n ≡ ok id → run_id_of n ≡ id
unfolding new_run_id
new_run_id-inv n id h = elim (Bool-cases (is_too_long (padded 4 n))) [
  | inl q ↦ absurd (err_ne_ok (rw q at h))
  | inr q ↦ ok_inj (rw q at h)
]

is_text-inv : (s : String) (o : Option Json) → is_text s o ≡ true → text_of o ≡ some s
is_text-inv s (some (str t)) h = ap some ((eq_iff t s).0 h)
is_text-inv s _ h = cc

field_is-text : (k s : String) (e : Json) → field_is k s e ≡ true → text_of (field_of k e) ≡ some s
unfolding field_is
field_is-text k s e h = is_text-inv s (field_of k e) h

max_number-le : (o : Option ℕ) (ns : List ℕ) {n : ℕ} → o ≡ some n → n ≤ max_number (put_option o ns)
unfolding max_number
max_number-le none ns h = cc
max_number-le (some m) ns h = ground (arith, some_inj h)

put_option-le : (o : Option ℕ) (ns : List ℕ) → max_number ns ≤ max_number (put_option o ns)
unfolding max_number
put_option-le none ns = omega arith
put_option-le (some m) ns = ground arith

-- The numbers behind an entry are among those of the longer list.
run_numbers-le :
    (e : Json) (es : List Json) (ms ns : List ℕ)
    → run_numbers es ≡ ok ms
    → run_numbers (e ∷ es) ≡ ok ns
    → max_number ms ≤ max_number ns
unfolding run_numbers
run_numbers-le e es ms ns h k = elim (Bool-cases (field_is "entry_type" "run_started" e)) [
  | inl q ↦
      let (o, _, k1) = >>=-eq-ok (number_of (text_of (field_of "run_id" e))) _ (rw q at k) in
      subst (λ xs. max_number ms ≤ max_number xs) (ok_inj (rw h at k1)) (put_option-le o ms)
  | inr q ↦ subst (λ xs. max_number ms ≤ max_number xs) (ok_inj (sym h ∙ rw q at k)) (omega arith)
]

start-le :
    (m : ℕ) (e : Json) (es : List Json) (ns : List ℕ)
    → run_numbers (e ∷ es) ≡ ok ns
    → is_start_of (run_id_of m) e ≡ true
    → m ≤ max_number ns
unfolding run_numbers number_of
start-le m e es ns k h =
    let (started, named) =
      &&-eq-true (field_is "entry_type" "run_started" e) (field_is "run_id" (run_id_of m) e) h in
    let (o, q, k1) = >>=-eq-ok (number_of (text_of (field_of "run_id" e))) _ (rw started at k) in
    let (ms, _, k2) = >>=-eq-ok (run_numbers es) _ k1 in
    let named_so = ap number_of (field_is-text "run_id" (run_id_of m) e named) in
    subst (λ xs. m ≤ max_number xs) (ok_inj k2)
      (max_number-le o ms (run_number-run_id_of m o (sym named_so ∙ q)))

-- Where the numbers can be read, so can those behind the first entry.
rest_numbers :
    (e : Json) (es : List Json) (ns : List ℕ)
    → run_numbers (e ∷ es) ≡ ok ns
    → (ms : List ℕ) × (run_numbers es ≡ ok ms)
unfolding run_numbers
rest_numbers e es ns k = elim (Bool-cases (field_is "entry_type" "run_started" e)) [
  | inl q ↦
      let (o, _, k1) = >>=-eq-ok (number_of (text_of (field_of "run_id" e))) _ (rw q at k) in
      let (ms, h, _) = >>=-eq-ok (run_numbers es) _ k1 in (ms, h)
  | inr q ↦ (ns, rw q at k)
]

-- A start entry of the run with number `m` has that number among the numbers of the runs.
starts-le :
    (m : ℕ) (es : List Json) (ns : List ℕ)
    → run_numbers es ≡ ok ns
    → All (λ e. is_start_of (run_id_of m) e ≡ true → m ≤ max_number ns) es
starts-le m [] ns k = tt
starts-le m (e ∷ es) ns k =
    let (ms, h) = rest_numbers e es ns k in
    (
      start-le m e es ns k,
      All-map (λ d below s. le_trans (below s) (run_numbers-le e es ms ns h k)) es
          (starts-le m es ms h),
    )
  where
    le_trans : {a b c : ℕ} → a ≤ b → b ≤ c → a ≤ c
    le_trans h k = omega arith

first-none : (p : Json → Bool) (es : List Json) → All (λ e. p e ≡ false) es → first p es ≡ none
unfolding first
first-none p [] h = refl
first-none p (e ∷ es) (h, hs) = rw (h, first-none p es hs) refl

-- The next run id, if there is one, is the id of no run that was started.
pub next_run_id-unused :
    (es : List Json) (id : String) → next_run_id es ≡ ok id → All (λ e. is_start_of id e ≡ false) es
unfolding next_run_id
next_run_id-unused es id h =
    let (ns, q, h1) = >>=-eq-ok (run_numbers es) _ h in
    subst (λ i. All (λ e. is_start_of i e ≡ false) es) (new_run_id-inv (suc (max_number ns)) id h1)
      (All-map (λ e below. unused ns e below) es (starts-le (suc (max_number ns)) es ns q))
  where
    below_self : {n : ℕ} → suc n ≤ n → ⊥
    below_self h = omega arith

    unused :
        (ns : List ℕ) (e : Json)
        → (is_start_of (run_id_of (suc (max_number ns))) e ≡ true
            → suc (max_number ns) ≤ max_number ns)
        → is_start_of (run_id_of (suc (max_number ns))) e ≡ false
    unused ns e below = elim (Bool-cases (is_start_of (run_id_of (suc (max_number ns))) e)) [
      | inl q ↦ absurd (below_self (below q))
      | inr q ↦ q
    ]

-- The run that start_run answers with and its entry, or the error of the search for its id.
abbrev pub FreshRun :
    (String → String → String)
    → String
    → String
    → Json
    → LedgerFile
    → List Json
    → Result String
    → Type 0
FreshRun detect audit_id snapshot_ref metadata file es (err e) =
    start_run detect audit_id snapshot_ref none metadata file ≡ err e
FreshRun detect audit_id snapshot_ref metadata file es (ok id) =
    (start_run detect audit_id snapshot_ref none metadata file
      ≡ ok (
        record {
          run_id = id;
          entry_id = str (entry_id (next_sequence es));
          sequence = int (next_sequence es);
        },
        append_entry detect (start_entry es id audit_id snapshot_ref metadata) file,
      ))
    × All (λ e. is_start_of id e ≡ false) es

fresh_by :
    (detect : String → String → String) (audit_id snapshot_ref : String) (metadata : Json)
    (file : LedgerFile) (es : List Json) (next : Result String)
    → no_text (strip audit_id) ≡ false
    → no_text (strip snapshot_ref) ≡ false
    → read_entries file ≡ ok es
    → next_run_id es ≡ next
    → FreshRun detect audit_id snapshot_ref metadata file es next
unfolding start_run ledger_check chosen_run_id start_or_resume
fresh_by detect audit_id snapshot_ref metadata file es (err e) h k reads q =
    rw (h, k, reads, q) refl
fresh_by detect audit_id snapshot_ref metadata file es (ok id) h k reads q =
    let unused = next_run_id-unused es id q in
    (rw (h, k, reads, q, first-none (is_start_of id) es unused) refl, unused)

-- On a readable ledger, start_run without a run id raises what the search for the next run id raises,
-- which is the error of int on a run id of digits that int refuses, or of printing a number that is too
-- long. If the search finds an id,
-- start_run answers with that id, which no start entry of the ledger has, and with the next sequence,
-- and appends the entry of that run. Audit and snapshot are texts that are not blank.
pub start_run_fresh :
    (detect : String → String → String) (audit_id snapshot_ref : String) (metadata : Json)
    (file : LedgerFile) (es : List Json)
    → no_text (strip audit_id) ≡ false
    → no_text (strip snapshot_ref) ≡ false
    → read_entries file ≡ ok es
    → FreshRun detect audit_id snapshot_ref metadata file es (next_run_id es)
start_run_fresh detect audit_id snapshot_ref metadata file es h k reads =
    fresh_by detect audit_id snapshot_ref metadata file es (next_run_id es) h k reads refl
