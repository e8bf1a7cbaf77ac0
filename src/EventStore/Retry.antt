-- ===== src/EventStore/Retry.antt =====
-- After an event has been appended: a second submission, and reading it back.
use deterministic_audit_runt.EventStore.Append.{IsClosed, extended, found, append_event_of_IsClosed}
use deterministic_audit_runt.Json.{Json, item, is_obj, str, is_obj_of_item}
use deterministic_audit_runt.Prelude.{
  List, String, ◌+◌, ◌≡◌, true, length, Option, All-append, ℕ, elem, none, arith, ◌∷◌, [], sym, ◌∙◌,
  refl, ap,
}
use deterministic_audit_runt.EventStore.Ledger.{
  LedgerFile, StoredEvent, append_line, is_sound, stored_from,
}
use deterministic_audit_runt.EventStore.{
  settle, append_event, validate_event, redact_event, AppendResult, append_line, true, Result, ok,
  ℕ, str, Option, appended, none, is_sound, find_from, some, [], duplicate,
  find_duplicate_or_conflict, get_event, match_reason, by_event_id, stored_from, get_from,
}
use deterministic_audit_runt.Json.Canonical.{canonical, equals_refl, canonical_idem, same_refl}
use deterministic_audit_runt.Redaction.{redact_event}
use deterministic_audit_runt.Errors.{Result, ok, err, >>=-eq-ok}
use deterministic_audit_runt.Redaction.Structure.{
  item-redact_event, is_obj-canonical-redact_event, item-canonical-redact_event,
}
use deterministic_audit_runt.EventStore.Repair.{iter_stored_events_of_IsSound}
use deterministic_audit_runt.EventStore.Scan.{
  stored_from-snoc, find_from-snoc, get_from-snoc, get_from_of_find_none,
}

module _ (schema_errors : Json → List String) (detect : String → String → String) (event : Json)
    (f : LedgerFile) (c : IsClosed f) where
  persisted : Json
  persisted = canonical (redact_event detect event)

  abbrev line : StoredEvent
  line = record { line_number = 1 + length f.lines; event = persisted }

  settle_inv :
      (x : Result (Option StoredEvent × ℕ)) (r : AppendResult) (f' : LedgerFile)
      → settle schema_errors detect event (x, f) ≡ (ok r, f')
      → r.outcome ≡ appended
      → ((n : ℕ) × (x ≡ ok (none, n))) × (f' ≡ extended schema_errors detect event f)
  unfolding settle append_line
  settle_inv (err e) r f' h new = cc
  settle_inv (ok (some s, n)) r f' h new = ground arith
  settle_inv (ok (none, n)) r f' h new = ((n, refl), ground (arith, c.no_tail))

  abbrev Inverted : LedgerFile → Type 0
  Inverted f' =
      (validate_event schema_errors detect event ≡ ok tt)
      × ((n : ℕ) × (found schema_errors detect event f ≡ ok (none, n)))
      × (f' ≡ extended schema_errors detect event f)

  -- The only way to a line of its own.
  pub inverted :
      (r : AppendResult) (f' : LedgerFile)
      → append_event schema_errors detect event f ≡ (ok r, f')
      → r.outcome ≡ appended
      → Inverted f'
  unfolding append_event
  inverted r f' done new = go (validate_event schema_errors detect event) refl
    where
      go : (v : Result (Unit {0})) → validate_event schema_errors detect event ≡ v → Inverted f'
      go (err e) h = absurd (unfold append_event in ground arith)
      go (ok u) h =
          let (n, at_end) =
            settle_inv (found schema_errors detect event f) r f'
              (sym (append_event_of_IsClosed schema_errors detect event f c h) ∙ done) new in
          (h, n, at_end)

  pub extended-IsClosed : is_obj event ≡ true → IsClosed (extended schema_errors detect event f)
  extended-IsClosed o = record {
    sound = record {
      lines_sound =
          All-append (λ l. is_sound l ≡ true) f.lines _ c.sound.lines_sound
            (is_obj-canonical-redact_event detect event o, tt);
      tail_sound = tt;
    };
    no_tail = refl;
  }

  module _ {id : String} (has_id : item "id" event ≡ ok (str id)) where
    persisted_id : item "id" persisted ≡ ok (str id)
    unfolding persisted elem
    persisted_id = item-canonical-redact_event detect "id" id event refl has_id

    redacted_id : item "id" (redact_event detect event) ≡ ok (str id)
    unfolding elem
    redacted_id = item-redact_event detect "id" id event refl has_id

    -- The scan stops at the line itself.
    find_line :
        (n : ℕ)
        → find_from (redact_event detect event) n (line ∷ []) ≡ ok (some line, 1 + length f.lines)
    unfolding find_from persisted
    find_line n = rw (persisted_id, redacted_id) (simp (equals_refl, canonical_idem, same_refl))

    find_again :
        (n : ℕ)
        → found schema_errors detect event f ≡ ok (none, n)
        → found schema_errors detect event (extended schema_errors detect event f)
          ≡ ok (some line, 1 + length f.lines)
    unfolding find_duplicate_or_conflict persisted
    find_again n h =
        let (es, stored, nothing) =
          >>=-eq-ok (stored_from 1 none f.lines)
            (find_duplicate_or_conflict (redact_event detect event)) h in
        rw (stored_from-snoc 1 f.lines persisted, stored)
          (find_from-snoc (redact_event detect event) 0 es line n nothing ∙ find_line n)

    settle_again :
        (g : LedgerFile)
        → settle schema_errors detect event (ok (some line, 1 + length f.lines), g) ≡ (
          ok (record {
            outcome = duplicate;
            event_id = str id;
            line_number = 1 + length f.lines;
            matched_on = some by_event_id;
          }),
          g,
        )
    unfolding settle match_reason
    settle_again g = rw (persisted_id, has_id) (simp (equals_refl))

    -- A second submission of an event that was appended to a closed ledger writes nothing. It
    -- answers with the line that the event has, matched by its id.
    pub append_event_again :
        (r : AppendResult) (f' : LedgerFile)
        → append_event schema_errors detect event f ≡ (ok r, f')
        → r.outcome ≡ appended
        → append_event schema_errors detect event f' ≡ (
          ok (record {
            outcome = duplicate;
            event_id = str id;
            line_number = 1 + length f.lines;
            matched_on = some by_event_id;
          }),
          f',
        )
    append_event_again r f' done new =
        let (v, (n, h), e) = inverted r f' done new in
        rw e (
          append_event_of_IsClosed schema_errors detect event
            (extended schema_errors detect event f)
            (extended-IsClosed (is_obj_of_item "id" event has_id)) v
          ∙ (rw (find_again n h) (settle_again _)))

    get_line : get_from id (line ∷ []) ≡ ok (some persisted)
    unfolding get_from
    get_line = rw persisted_id (simp equals_refl)

    -- An event that was appended to a closed ledger is read back by its id, redacted and with its
    -- keys sorted, and reading changes nothing.
    pub get_event_of_appended :
        (r : AppendResult) (f' : LedgerFile)
        → append_event schema_errors detect event f ≡ (ok r, f')
        → r.outcome ≡ appended
        → get_event id f' ≡ (ok (some (canonical (redact_event detect event))), f')
    unfolding get_event persisted
    get_event_of_appended r f' done new =
        let (v, (n, h), e) = inverted r f' done new in
        let (es, stored, nothing) =
          >>=-eq-ok (stored_from 1 none f.lines)
            (find_duplicate_or_conflict (redact_event detect event)) h in
        rw (e, get_event)
          (rw
            (iter_stored_events_of_IsSound none (extended schema_errors detect event f)
              (extended-IsClosed (is_obj_of_item "id" event has_id)).sound)
            (rw (stored_from-snoc 1 f.lines persisted, stored)
              (ap (λ x. (x, extended schema_errors detect event f))
                (get_from-snoc id es line (
                    get_from_of_find_none (redact_event detect event) id 0 es n redacted_id
                      (unfold find_duplicate_or_conflict in nothing))
                  ∙ get_line))))
