-- ===== src/RunLedger/Counted.antt =====
-- What resolve_candidate_forensic_trace of runtime/run_ledger.py counts.
use deterministic_audit_runt.Errors.{ok, >>=-eq-ok, ok_inj}
use deterministic_audit_runt.Prelude.{
  ℕ, suc, ◌+◌, String, ◌≡◌, refl, inl, inr, Bool, true, false, ◌&&◌, List, [], ◌∷◌, ◌++◌, arith,
  length, if◌then◌else◌, Bool-cases, bool_eq, sym, not, Option, some, ◌≢◌, none,
}
use deterministic_audit_runt.Prelude.Sort.{sort, insert, IsSorted, sort-IsSorted}
use deterministic_audit_runt.RunLedger.Forensic.{
  CandidateEvent, ForensicTrace, candidate_events, event_le, candidate_event, add_execution,
  resolve_candidate_forensic_trace,
}
use deterministic_audit_runt.Json.{Json, get, str, get_default, arr, nil}
use deterministic_audit_runt.Json.Canonical.{equals}
use mathlib.Core.Path.{ap, subst}
use deterministic_audit_runt.EventStore.{LedgerFile}
use deterministic_audit_runt.RunLedger.Traces.{refs_of}
use deterministic_audit_runt.RunLedger.File.{read_entries, int_value}
use deterministic_audit_runt.RunLedger.Listing.{for_executions}
use deterministic_audit_runt.RunLedger.Distinct.{for_executions_keeps}
use deterministic_audit_runt.Prelude.Int.{ltb_ℤ, ℤ}
use deterministic_audit_runt.RunLedger.Entities.{int_le}

-- How many events were accepted, or were not.
unfoldable pub counted : Bool → List CandidateEvent → ℕ
counted b [] = 0
counted b (e ∷ es) = let rest = counted b es in if bool_eq e.is_accepted b then suc rest else rest

unfoldable pub IsCounted : ForensicTrace → Type 0
unfolding counted
IsCounted t =
    (t.accepted_count ≡ counted true t.all_events) × (t.rejected_count ≡ counted false t.all_events)

counted-append :
    (b : Bool) (es fs : List CandidateEvent) → counted b (es ++ fs) ≡ counted b es + counted b fs
unfolding counted
counted-append b [] fs = omega arith
counted-append b (e ∷ es) fs = ground (arith, counted-append b es fs)

counted-insert :
    (b : Bool) (e : CandidateEvent) (es : List CandidateEvent)
    → counted b (insert event_le e es) ≡ counted b (e ∷ es)
unfolding counted insert
counted-insert b e [] = refl
counted-insert b e (f ∷ fs) = ground (arith, counted-insert b e fs)

counted-sort : (b : Bool) (es : List CandidateEvent) → counted b (sort event_le es) ≡ counted b es
unfolding counted sort
counted-sort b [] = refl
counted-sort b (e ∷ es) = ground (arith, counted-insert b e (sort event_le es), counted-sort b es)

counted_split :
    (b : Bool) (es fs gs : List CandidateEvent)
    → counted b (es ++ fs ++ gs) ≡ counted b es + (counted b fs + counted b gs)
counted_split b es fs gs = omega (arith, counted-append b (es ++ fs) gs, counted-append b es fs)

event_verdict :
    (b : Bool) (entry event_ref : Json) (e : CandidateEvent)
    → candidate_event b entry event_ref ≡ ok e
    → e.is_accepted ≡ b
unfolding candidate_event
event_verdict b entry event_ref e h =
    let (_, _, h1) = >>=-eq-ok (get "event_id" event_ref) _ h in
    let (_, _, h2) = >>=-eq-ok (get "event_type" event_ref) _ h1 in
    let (_, _, h3) = >>=-eq-ok (get_default "issue_codes" (arr nil) event_ref) _ h2 in
    let (_, _, h4) = >>=-eq-ok (get "sequence" entry) _ h3 in
    let (_, _, h5) = >>=-eq-ok (get "run_id" entry) _ h4 in
    let (_, _, h6) = >>=-eq-ok (get "task_id" entry) _ h5 in
    let (_, _, h7) = >>=-eq-ok (get "worker_role" entry) _ h6 in
    ap (λ r. r.is_accepted) (sym (ok_inj h7))

-- All events of the list have the verdict b.
abbrev CountsAll : Bool → Bool → List CandidateEvent → Type 0
CountsAll b c es = counted c es ≡ (if bool_eq b c then length es else 0)

CountsAll-nil : (b c : Bool) → CountsAll b c []
unfolding counted
CountsAll-nil b c = ground arith

CountsAll-cons :
    (b c : Bool) (e : CandidateEvent) (es : List CandidateEvent)
    → e.is_accepted ≡ b
    → CountsAll b c es
    → CountsAll b c (e ∷ es)
unfolding counted
CountsAll-cons b c e es verdict h = ground arith

-- The events of one list of an entry.
counted_of_list :
    (b c : Bool) (id : String) (entry : Json) (refs : List Json) (es : List CandidateEvent)
    → candidate_events b id entry refs ≡ ok es
    → CountsAll b c es
unfolding candidate_events
counted_of_list b c id entry [] es h = subst (CountsAll b c) (ok_inj h) (CountsAll-nil b c)
counted_of_list b c id entry (r ∷ refs) es h =
    let (kind, _, h1) = >>=-eq-ok (get "entity_type" r) _ h in
    let (found, _, h2) = >>=-eq-ok (get "entity_id" r) _ h1 in
    elim (Bool-cases (equals kind (str "candidate") && equals found (str id))) [
      | inl q ↦
          let (event, made, h3) = >>=-eq-ok (candidate_event b entry r) _ (rw q at h2) in
          let (others, listed, h4) = >>=-eq-ok (candidate_events b id entry refs) _ h3 in
          subst (CountsAll b c) (ok_inj h4) (
            CountsAll-cons b c event others (event_verdict b entry r event made)
              (counted_of_list b c id entry refs others listed))
      | inr q ↦ counted_of_list b c id entry refs es (rw q at h2)
    ]

add_execution-IsCounted :
    (id : String) (entry : Json) (before after : ForensicTrace)
    → add_execution id entry before ≡ ok after
    → IsCounted before
    → IsCounted after
unfolding add_execution IsCounted
add_execution-IsCounted id entry before after h (taken_before, refused_before) =
    let (accepted, _, h1) = >>=-eq-ok (refs_of "accepted_events" entry) _ h in
    let (taken, listed, h2) = >>=-eq-ok (candidate_events true id entry accepted) _ h1 in
    let (rejected, _, h3) = >>=-eq-ok (refs_of "rejected_events" entry) _ h2 in
    let (refused, listed_refused, h4) = >>=-eq-ok (candidate_events false id entry rejected) _ h3 in
    let more : counted true taken ≡ length taken =
      counted_of_list true true id entry accepted taken listed in
    let more_not : counted false taken ≡ 0 =
      counted_of_list true false id entry accepted taken listed in
    let less : counted false refused ≡ length refused =
      counted_of_list false false id entry rejected refused listed_refused in
    let less_not : counted true refused ≡ 0 =
      counted_of_list false true id entry rejected refused listed_refused in
    subst IsCounted (ok_inj h4) (
      sums _ _ _ _ _ _ (counted_split true before.all_events taken refused) taken_before more
          less_not,
      sums_last _ _ _ _ _ _ (counted_split false before.all_events taken refused) refused_before
          more_not less,
    )
  where
    sums :
        (all old new_ones none_new count len : ℕ)
        → all ≡ old + (new_ones + none_new)
        → count ≡ old
        → new_ones ≡ len
        → none_new ≡ 0
        → count + len ≡ all
    sums all old new_ones none_new count len h k l m = omega arith

    sums_last :
        (all old none_new new_ones count len : ℕ)
        → all ≡ old + (none_new + new_ones)
        → count ≡ old
        → none_new ≡ 0
        → new_ones ≡ len
        → count + len ≡ all
    sums_last all old none_new new_ones count len h k l m = omega arith

not_above : (m n : ℤ) → not (ltb_ℤ m n) ≡ false → not (ltb_ℤ n m) ≡ true
not_above m n h = ground arith

true_ne_false : true ≢ false
true_ne_false same = cc

int_le_total : (m n : Option ℤ) → int_le m n ≡ false → int_le n m ≡ true
int_le_total none n h = absurd (true_ne_false h)
int_le_total (some m) none h = absurd (true_ne_false h)
int_le_total (some m) (some n) h = not_above n m h

event_le_total : (a b : CandidateEvent) → event_le a b ≡ false → event_le b a ≡ true
unfolding event_le
event_le_total a b h = int_le_total (int_value (some a.sequence)) (int_value (some b.sequence)) h

-- In the forensic trace of a candidate the two counts are the numbers of its accepted and of its
-- rejected events, and the events are in the order of their sequences.
pub resolve_candidate_forensic_trace-IsCounted :
    (audit_id candidate_id : String) (file : LedgerFile) (t : ForensicTrace)
    → resolve_candidate_forensic_trace audit_id candidate_id file ≡ ok t
    → IsCounted t × IsSorted event_le t.all_events
unfolding resolve_candidate_forensic_trace IsCounted
resolve_candidate_forensic_trace-IsCounted audit_id candidate_id file t h =
    let (entries, _, h1) = >>=-eq-ok (read_entries file) _ h in
    let none_yet : ForensicTrace = record {
      all_events = [];
      accepted_count = 0;
      rejected_count = 0;
    } in
    let (found, loop, h2) =
      >>=-eq-ok (for_executions (add_execution candidate_id) audit_id entries none_yet) _ h1 in
    let (taken, refused) =
      for_executions_keeps IsCounted (add_execution candidate_id) audit_id
        (add_execution-IsCounted candidate_id) entries none_yet found loop (refl, refl) in
    subst (λ r. IsCounted r × IsSorted event_le r.all_events) (ok_inj h2)
      (
        (
          rw (counted-sort true found.all_events) taken,
          rw (counted-sort false found.all_events) refused,
        ),
        sort-IsSorted event_le event_le_total found.all_events,
      )
