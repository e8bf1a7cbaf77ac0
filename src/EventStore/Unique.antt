-- ===== src/EventStore/Unique.antt =====
-- The ids of the events in the ledger of runtime/event_store.py, over any sequence of appends.
use deterministic_audit_runt.Prelude.{
  ◌≡◌, refl, ℕ, String, List, [], ◌∷◌, ◌++◌, none, some, Option, true, false, Bool, Bool-cases, inl,
  inr, All, All-append, if◌then◌else◌, ◌∙◌, ◌+◌, sym, length, ◌≢◌,
}
use deterministic_audit_runt.Errors.{Result, ok, err, Error, >>=-eq-ok, ◌>>=◌, ok_inj}
use deterministic_audit_runt.Json.{Json, item, is_obj, is_obj_of_item}
use deterministic_audit_runt.Json.Canonical.{
  equals, canonical, canonical_idem, item-canonical, same,
}
use deterministic_audit_runt.EventStore.{
  LedgerFile, StoredEvent, AppendResult, append_event, settle, find_from, same_key, stored_from,
  serialize_event, find_duplicate_or_conflict, appended, redact_event,
}
use deterministic_audit_runt.EventStore.Append.{IsClosed, extended, found, append_event_of_IsClosed}
use mathlib.Core.Path.{ap, subst}
use mathlib.Core.Bool.{false≢true}
use deterministic_audit_runt.EventStore.Answer.{
  append_event-Answer, failed, found_earlier, written, written_without_answer,
}
use deterministic_audit_runt.EventStore.Retry.{inverted, extended-IsClosed}
use deterministic_audit_runt.Redaction.{redact_event}
use deterministic_audit_runt.EventStore.Scan.{snoc, stored_from-snoc}

-- The two events have ids, and different ones.
abbrev pub Differ : Json → Json → Type 0
Differ a b =
    (i : Json) × (j : Json) × (item "id" a ≡ ok i) × (item "id" b ≡ ok j) × (equals i j ≡ false)

-- Each stored event has another id than each later one.
abbrev pub HaveUniqueIds : List StoredEvent → Type 0
HaveUniqueIds [] = Unit
HaveUniqueIds (s ∷ stored) = All (λ t. Differ s.event t.event) stored × HaveUniqueIds stored

HaveUniqueIds-snoc :
    (stored : List StoredEvent) (s : StoredEvent)
    → HaveUniqueIds stored
    → All (λ t. Differ t.event s.event) stored
    → HaveUniqueIds (stored ++ s ∷ [])
HaveUniqueIds-snoc [] s h d = (tt, tt)
HaveUniqueIds-snoc (t ∷ stored) s h d =
    (All-append _ stored (s ∷ []) h.0 (d.0, tt), HaveUniqueIds-snoc stored s h.1 d.1)

equals-canonical_right : (a b : Json) → equals a (canonical b) ≡ equals a b
unfolding equals
equals-canonical_right a b = rw canonical_idem refl

-- What is found, or an error, is not nothing.
something :
    (b : Bool) (s : StoredEvent) (n k : ℕ) (e : Error)
    → ◌≡◌ {A = Result (Option StoredEvent × ℕ)} (if b then ok (some s, n) else err e) (ok (none, k))
    → false ≡ true
something true s n k e h = cc
something false s n k e h = cc

find_from-Differ :
    (candidate : Json) (last : ℕ) (stored : List StoredEvent) (n : ℕ)
    → find_from candidate last stored ≡ ok (none, n)
    → All (λ s. Differ s.event candidate) stored
unfolding find_from
find_from-Differ candidate last [] n h = tt
find_from-Differ candidate last (s ∷ stored) n h =
    let (id, e1, h1) = >>=-eq-ok (item "id" s.event) _ h in
    let (candidate_id, e2, h2) = >>=-eq-ok (item "id" candidate) _ h1 in
    let same_text = same (serialize_event s.event) (serialize_event candidate) in
    elim (Bool-cases (equals id candidate_id)) [
      | inl equal ↦ absurd (false≢true (something same_text s s.line_number n _ (rw equal at h2)))
      | inr other ↦
          let (matched, e3, h3) = >>=-eq-ok (same_key s.event candidate) _ (rw other at h2) in
          elim (Bool-cases matched) [
            | inl so ↦ absurd (false≢true (something same_text s s.line_number n _ (rw so at h3)))
            | inr fresh ↦ (
              (id, candidate_id, e1, e2, other),
              find_from-Differ candidate s.line_number stored n (rw fresh at h3),
            )
          ]
    ]

Differ-canonical :
    (candidate : Json) (stored : List StoredEvent)
    → All (λ s. Differ s.event candidate) stored
    → All (λ s. Differ s.event (canonical candidate)) stored
Differ-canonical candidate [] h = tt
Differ-canonical candidate (s ∷ stored) ((i, j, e1, e2, d), h) = (
  (i, canonical j, e1, item-canonical "id" candidate e2, equals-canonical_right i j ∙ d),
  Differ-canonical candidate stored h,
)

not_failed :
    {r : AppendResult} {e : Error} {f g : LedgerFile}
    → ◌≢◌ {A = Result AppendResult × LedgerFile} (ok r, f) (err e, g)
not_failed h = cc

-- Closed, with different ids.
pub record IsUnique (f : LedgerFile) : Type 0 where
  pub closed : IsClosed f
  pub stored : List StoredEvent
  pub stored_eq : stored_from 1 none f.lines ≡ ok stored
  pub unique : HaveUniqueIds stored

module _ (schema_errors : Json → List String) (detect : String → String → String) where
  -- The ledgers that submissions lead to which are answered, from the empty one.
  pub data Reachable : LedgerFile → Type 0 where
    start : Reachable (record { lines = []; tail = none })
    submitted :
        (f g : LedgerFile) (event : Json) (r : AppendResult)
        → Reachable f
        → append_event schema_errors detect event f ≡ (ok r, g)
        → Reachable g

  appended_id :
      (event : Json) (f g : LedgerFile) (n : ℕ) (r : AppendResult)
      → settle schema_errors detect event (ok (none, n), f) ≡ (ok r, g)
      → (id : Json) × (item "id" event ≡ ok id)
  unfolding settle
  appended_id event f g n r h =
      let (id, e, q) = >>=-eq-ok (item "id" event) _ (ap (λ x. x.0) h) in (id, e)

  extended-IsUnique :
      (event : Json) (f : LedgerFile) (n : ℕ)
      → IsUnique f
      → is_obj event ≡ true
      → found schema_errors detect event f ≡ ok (none, n)
      → IsUnique (extended schema_errors detect event f)
  extended-IsUnique event f n u object h =
      let (es, q, nothing) =
        >>=-eq-ok (stored_from 1 none f.lines)
          (find_duplicate_or_conflict (redact_event detect event)) h in
      let differ =
        find_from-Differ (redact_event detect event) 0 es n
          (unfold find_duplicate_or_conflict in nothing) in
      record {
        closed = extended-IsClosed schema_errors detect event f u.closed object;
        stored = snoc es (1 + length f.lines) (canonical (redact_event detect event));
        stored_eq =
            stored_from-snoc 1 f.lines (canonical (redact_event detect event))
            ∙ ap
                (λ r. r >>= λ es.
                  ok (snoc es (1 + length f.lines) (canonical (redact_event detect event))))
                q;
        unique =
            HaveUniqueIds-snoc es _ (subst HaveUniqueIds (ok_inj (sym u.stored_eq ∙ q)) u.unique)
              (Differ-canonical (redact_event detect event) es differ);
      }

  written-IsUnique :
      (event : Json) (f : LedgerFile) (r : AppendResult)
      → IsUnique f
      → r.outcome ≡ appended
      → append_event schema_errors detect event f ≡ (ok r, extended schema_errors detect event f)
      → IsUnique (extended schema_errors detect event f)
  written-IsUnique event f r u new done =
      let (v, (n, h), e) =
        inverted schema_errors detect event f u.closed r (extended schema_errors detect event f)
          done new in
      let settled =
        ap (λ x. settle schema_errors detect event (x, f)) (sym h)
        ∙ sym (append_event_of_IsClosed schema_errors detect event f u.closed v)
        ∙ done in
      let (id, has_id) = appended_id event f _ n r settled in
      extended-IsUnique event f n u (is_obj_of_item "id" event has_id) h

  submitted-IsUnique :
      (f g : LedgerFile) (event : Json) (r : AppendResult)
      → IsUnique f
      → append_event schema_errors detect event f ≡ (ok r, g)
      → IsUnique g
  submitted-IsUnique f g event r u done =
      elim (append_event-Answer schema_errors detect event f u.closed) [
        | failed e q ↦ absurd (not_failed (sym done ∙ q))
        | found_earlier r' o q ↦ subst IsUnique (ap (λ x. x.1) (sym q ∙ done)) u
        | written r' o q ↦
            subst IsUnique (ap (λ x. x.1) (sym q ∙ done)) (written-IsUnique event f r' u o q)
        | written_without_answer e s q ↦ absurd (not_failed (sym done ∙ q))
      ]

  -- However many events were submitted to an empty ledger, and whatever they were, as long as each
  -- submission was answered: nothing stands behind the last line break, every line is an object or
  -- blank, and no two stored events have the same id.
  pub Reachable-IsUnique : (f : LedgerFile) → Reachable f → IsUnique f
  unfolding stored_from
  Reachable-IsUnique _ start = record {
    closed = record { sound = record { lines_sound = tt; tail_sound = tt }; no_tail = refl };
    stored = [];
    stored_eq = refl;
    unique = tt;
  }
  Reachable-IsUnique _ (submitted f g event r reached done) =
      submitted-IsUnique f g event r (Reachable-IsUnique f reached) done
