-- ===== src/EventStore/Answer.antt =====
-- Every way in which `append_event` of runtime/event_store.py can end, on a ledger that is closed.
use deterministic_audit_runt.Prelude.{
  ◌≡◌, refl, String, List, none, some, ℕ, false, Bool, Option, ◌+◌, Option-cases, inl, inr, arith,
}
use deterministic_audit_runt.Errors.{Result, ok, err, Error, is_store_error}
use deterministic_audit_runt.Json.{Json, item, obj, lookup}
use deterministic_audit_runt.EventStore.{
  LedgerFile, AppendResult, appended, duplicate, append_event, append_valid, settle, StoredEvent,
  validate_event, append_line,
}
use deterministic_audit_runt.EventStore.Append.{IsClosed, extended, found, append_event_of_IsClosed}

abbrev is_caught : Result Json → Bool
is_caught (ok v) = false
is_caught (err e) = is_store_error e

-- A look-up never fails with an error of the store.
item_not_caught : (k : String) (v : Json) → is_caught (item k v) ≡ false
unfolding item
item_not_caught k (obj fs) = elim (Option-cases (lookup k fs)) [
  | inl q ↦ rw (is_caught, item, q) refl
  | inr (v, q) ↦ rw (is_caught, item, q) refl
]
item_not_caught k _ = refl

module _ (schema_errors : Json → List String) (detect : String → String → String) (event : Json)
    (f : LedgerFile) where
  -- The file is as it was in the first two cases, and has the event's line in the other two.
  pub data Answer (out : Result AppendResult × LedgerFile) : Type 0 where
    failed : (e : Error) → out ≡ (err e, f) → Answer out
    found_earlier : (r : AppendResult) → r.outcome ≡ duplicate → out ≡ (ok r, f) → Answer out
    written :
        (r : AppendResult)
        → r.outcome ≡ appended
        → out ≡ (ok r, extended schema_errors detect event f)
        → Answer out
    written_without_answer :
        (e : Error)
        → is_store_error e ≡ false
        → out ≡ (err e, extended schema_errors detect event f)
        → Answer out

  earlier :
      (m : Result AppendResult)
      → ((r : AppendResult) → m ≡ ok r → r.outcome ≡ duplicate)
      → Answer (m, f)
  earlier (err e) d = failed e refl
  earlier (ok r) d = found_earlier r (d r refl) refl

  answered :
      (n : ℕ) (m : Result Json)
      → item "id" event ≡ m
      → IsClosed f
      → Answer (settle schema_errors detect event (ok (none, n), f))
  unfolding settle append_line
  answered n (ok id) i c =
      written (record { outcome = appended; event_id = id; line_number = n + 1; matched_on = none })
        refl (rw (i, c.no_tail))
  answered n (err e) i c =
      written_without_answer e (rw i at (item_not_caught "id" event)) (rw (i, c.no_tail))

  settle-Answer :
      (x : Result (Option StoredEvent × ℕ))
      → IsClosed f
      → Answer (settle schema_errors detect event (x, f))
  unfolding settle
  settle-Answer (err e) c = failed e refl
  settle-Answer (ok (some s, n)) c = earlier _ (λ r h. ground arith)
  settle-Answer (ok (none, n)) c = answered n (item "id" event) refl c

  append_valid-Answer :
      (v : Result (Unit {0}))
      → IsClosed f
      → validate_event schema_errors detect event ≡ v
      → Answer (append_event schema_errors detect event f)
  unfolding append_event
  append_valid-Answer (err e) c h = rw (append_event, h, append_valid) (failed e refl)
  append_valid-Answer (ok tt) c h =
      rw (append_event_of_IsClosed schema_errors detect event f c h)
        (settle-Answer (found schema_errors detect event f) c)

  pub append_event-Answer : IsClosed f → Answer (append_event schema_errors detect event f)
  append_event-Answer c = append_valid-Answer (validate_event schema_errors detect event) c refl
