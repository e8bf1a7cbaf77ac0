-- ===== src/EventStore/Lines.antt =====
-- The line numbers that append_event of runtime/event_store.py answers with count from 1.
use deterministic_audit_runt.EventStore.Ledger.{
  blank, broken, value, iter_stored_events, after_repair, repair, all_lines,
}
use deterministic_audit_runt.Errors.{
  Result, ok, err, ◌>>=◌, Error, event_id_conflict, idempotency_conflict,
}
use deterministic_audit_runt.Prelude.{
  ℕ, ◌+◌, ◌≤◌, String, Bool, true, false, Option, none, some, List, [], ◌∷◌, arith, All,
  if◌then◌else◌, ◌≡◌, refl,
}
use deterministic_audit_runt.EventStore.{
  serialize_event, same_key, find_from, match_reason, conclude, settle, AppendResult, Json,
  stored_from, StoredEvent, item, LedgerFile, Line, equals, value, matches_audit, same,
  find_duplicate_or_conflict, validate_event, scan, append_locked, append_valid, append_event,
  after_repair, iter_stored_events, repair, all_lines, redact_event,
}
use deterministic_audit_runt.Json.{Json, item}
use deterministic_audit_runt.EventStore.Ledger.{
  stored_from, StoredEvent, LedgerFile, Line, matches_audit,
}
use deterministic_audit_runt.Json.Canonical.{equals, same}
use deterministic_audit_runt.Redaction.{redact_event}

-- What holds of the value, if there is one.
abbrev pub OkAll {ℓ κ} : {V : Type ℓ} → (V → Type κ) → Result V → Type κ
OkAll P (err e) = Unit
OkAll P (ok v) = P v

pub OkAll-bind {ℓ κ ι ρ} :
    {V : Type ℓ} {W : Type κ} (P : V → Type ι) (Q : W → Type ρ) (m : Result V) (k : V → Result W)
    → OkAll P m
    → ((v : V) → P v → OkAll Q (k v))
    → OkAll Q (m >>= k)
OkAll-bind P Q (err e) k h f = tt
OkAll-bind P Q (ok v) k h f = f v h

-- A call whose value does not matter.
pub OkAll-then {ℓ κ ρ} :
    {V : Type ℓ} {W : Type κ} (Q : W → Type ρ) (m : Result V) (k : V → Result W)
    → ((v : V) → OkAll Q (k v))
    → OkAll Q (m >>= k)
OkAll-then Q (err e) k f = tt
OkAll-then Q (ok v) k f = f v

after_repair-OkAll {κ} :
    {A : Type 0} (P : A → Type κ) (f : LedgerFile) (k : LedgerFile → Result A × LedgerFile)
    → ((g : LedgerFile) → OkAll P (k g).0)
    → OkAll P (after_repair f k).0
unfolding after_repair
after_repair-OkAll P f k h = go (repair f) refl
  where
    go : (r : Result LedgerFile) → repair f ≡ r → OkAll P (after_repair f k).0
    go (err e) q = rw (OkAll, after_repair, q) tt
    go (ok g) q = rw (OkAll, after_repair, q) (h g)

abbrev IsPlaced : StoredEvent → Type 0
IsPlaced s = 1 ≤ s.line_number

kept-IsPlaced :
    (n : ℕ) (v : Json) (keep : Bool) (rest : List StoredEvent)
    → 1 ≤ n
    → All IsPlaced rest
    → All IsPlaced (if keep then record { line_number = n; event = v } ∷ rest else rest)
kept-IsPlaced n v true rest h hs = (h, hs)
kept-IsPlaced n v false rest h hs = hs

stored_from-IsPlaced :
    (n : ℕ) (audit_id : Option String) (ls : List Line)
    → 1 ≤ n
    → OkAll (All IsPlaced) (stored_from n audit_id ls)
unfolding stored_from
stored_from-IsPlaced n audit_id [] h = tt
stored_from-IsPlaced n audit_id (blank ∷ ls) h =
    stored_from-IsPlaced (n + 1) audit_id ls (omega arith)
stored_from-IsPlaced n audit_id (broken ∷ ls) h = tt
stored_from-IsPlaced n audit_id (value v ∷ ls) h =
    OkAll-then (All IsPlaced) (matches_audit audit_id v) _ (λ keep.
      OkAll-bind (All IsPlaced) (All IsPlaced) (stored_from (n + 1) audit_id ls) _
        (stored_from-IsPlaced (n + 1) audit_id ls (omega arith))
        (λ rest hs. kept-IsPlaced n v keep rest h hs))

abbrev IsFound : Option StoredEvent × ℕ → Type 0
IsFound (none, last) = Unit
IsFound (some s, last) = IsPlaced s

conflict-IsFound :
    (b : Bool) (s : StoredEvent) (e : Error)
    → IsPlaced s
    → OkAll IsFound (if b then ok (some s, s.line_number) else err e)
conflict-IsFound true s e h = h
conflict-IsFound false s e h = tt

either-IsFound :
    (b : Bool) (m n : Result (Option StoredEvent × ℕ))
    → OkAll IsFound m
    → OkAll IsFound n
    → OkAll IsFound (if b then m else n)
either-IsFound true m n h k = h
either-IsFound false m n h k = k

find_from-IsFound :
    (candidate : Json) (last : ℕ) (stored : List StoredEvent)
    → All IsPlaced stored
    → OkAll IsFound (find_from candidate last stored)
unfolding find_from
find_from-IsFound candidate last [] h = tt
find_from-IsFound candidate last (s ∷ rest) (h, hs) =
    OkAll-then IsFound (item "id" s.event) _ (λ id.
      OkAll-then IsFound (item "id" candidate) _ (λ candidate_id.
        either-IsFound (equals id candidate_id) _ _
          (conflict-IsFound (same (serialize_event s.event) (serialize_event candidate)) s
            event_id_conflict h)
          (OkAll-then IsFound (same_key s.event candidate) _ (λ matched.
            either-IsFound matched _ _
              (conflict-IsFound (same (serialize_event s.event) (serialize_event candidate)) s
                idempotency_conflict h)
              (find_from-IsFound candidate s.line_number rest hs)))))

module _ (schema_errors : Json → List String) (detect : String → String → String)
    (event : Json) where
  abbrev pub HasLine : AppendResult → Type 0
  HasLine r = 1 ≤ r.line_number

  conclude-HasLine :
      (found : Option StoredEvent × ℕ) (f : LedgerFile)
      → IsFound found
      → OkAll HasLine (conclude schema_errors detect event found f).0
  unfolding conclude
  conclude-HasLine (some s, last) f h =
      OkAll-then HasLine (item "id" s.event) _
        (λ id. OkAll-then HasLine (match_reason s.event event) _ (λ reason. h))
  conclude-HasLine (none, last) f h = OkAll-then HasLine (item "id" event) _ (λ id. omega arith)

  settle-HasLine :
      (m : Result (Option StoredEvent × ℕ)) (f : LedgerFile)
      → OkAll IsFound m
      → OkAll HasLine (settle schema_errors detect event (m, f)).0
  unfolding settle
  settle-HasLine (err e) f h = tt
  settle-HasLine (ok found) f h = conclude-HasLine found f h

  scan-IsFound : (f : LedgerFile) → OkAll IsFound (scan schema_errors detect event f).0
  unfolding scan iter_stored_events find_duplicate_or_conflict
  scan-IsFound f =
      OkAll-bind (All IsPlaced) IsFound (iter_stored_events none f).0 _
        (after_repair-OkAll (All IsPlaced) f _
          (λ g. stored_from-IsPlaced 1 none (all_lines g) (omega arith)))
        (λ stored hs. find_from-IsFound (redact_event detect event) 0 stored hs)

  valid-HasLine :
      (f : LedgerFile) (v : Result (Unit {0}))
      → OkAll HasLine (append_valid schema_errors detect event f v).0
  unfolding append_valid append_locked
  valid-HasLine f (err e) = tt
  valid-HasLine f (ok u) = after_repair-OkAll HasLine f _ (λ g.
      settle-HasLine (scan schema_errors detect event g).0 (scan schema_errors detect event g).1
        (scan-IsFound g))

  -- On any ledger, the line number in the answer of a submission that does not raise is at least 1.
  pub append_event-HasLine :
      (f : LedgerFile) → OkAll HasLine (append_event schema_errors detect event f).0
  unfolding append_event
  append_event-HasLine f = valid-HasLine f (validate_event schema_errors detect event)
