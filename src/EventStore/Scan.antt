-- ===== src/EventStore/Scan.antt =====
-- The two passes over the stored events of runtime/event_store.py: for a duplicate or a conflict,
-- and for an event by its id.
use deterministic_audit_runt.Prelude.{
  ℕ, ◌+◌, String, ◌≡◌, refl, none, List, [], ◌∷◌, ◌++◌, length, arith,
}
use deterministic_audit_runt.Errors.{ok, ◌>>=◌}
use deterministic_audit_runt.Json.{Json, str, item}
use deterministic_audit_runt.EventStore.Ledger.{
  Line, blank, broken, value, StoredEvent, stored_from,
}
use deterministic_audit_runt.EventStore.{find_from, get_from}

abbrev pub snoc : List StoredEvent → ℕ → Json → List StoredEvent
snoc es n v = es ++ record { line_number = n; event = v } ∷ []

-- One more line is one more stored event, under the number of its line.
pub stored_from-snoc :
    (n : ℕ) (ls : List Line) (v : Json)
    → stored_from n none (ls ++ value v ∷ [])
      ≡ (stored_from n none ls >>= λ es. ok (snoc es (n + length ls) v))
unfolding stored_from
stored_from-snoc n [] v = ground arith
stored_from-snoc n (blank ∷ ls) v = ground (arith, stored_from-snoc (n + 1) ls v)
stored_from-snoc n (broken ∷ ls) v = refl
stored_from-snoc n (value w ∷ ls) v = ground (arith, stored_from-snoc (n + 1) ls v)

-- A scan that found nothing goes on with what was appended.
pub find_from-snoc :
    (candidate : Json) (last : ℕ) (es : List StoredEvent) (s : StoredEvent) (n : ℕ)
    → find_from candidate last es ≡ ok (none, n)
    → find_from candidate last (es ++ s ∷ []) ≡ find_from candidate n (s ∷ [])
unfolding find_from
find_from-snoc candidate last [] s n h = ground arith
find_from-snoc candidate last (e ∷ es) s n h =
    ground (arith, find_from-snoc candidate e.line_number es s n)

-- After a scan that found nothing no stored event has the id of the candidate.
pub get_from_of_find_none :
    (candidate : Json) (id : String) (last : ℕ) (es : List StoredEvent) (n : ℕ)
    → item "id" candidate ≡ ok (str id)
    → find_from candidate last es ≡ ok (none, n)
    → get_from id es ≡ ok none
unfolding find_from get_from
get_from_of_find_none candidate id last [] n i h = refl
get_from_of_find_none candidate id last (e ∷ es) n i h =
    ground (arith, get_from_of_find_none candidate id e.line_number es n)

pub get_from-snoc :
    (id : String) (es : List StoredEvent) (s : StoredEvent)
    → get_from id es ≡ ok none
    → get_from id (es ++ s ∷ []) ≡ get_from id (s ∷ [])
unfolding get_from
get_from-snoc id [] s h = refl
get_from-snoc id (e ∷ es) s h = ground (arith, get_from-snoc id es s)
