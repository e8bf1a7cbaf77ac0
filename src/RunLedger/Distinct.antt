-- ===== src/RunLedger/Distinct.antt =====
-- The passes of list_candidates_by_outcome keep the candidates apart.
use deterministic_audit_runt.Errors.{Result, ok, ◌>>=◌, >>=-eq-ok, ok_inj, err_ne_ok}
use deterministic_audit_runt.Prelude.{
  String, ◌≡◌, inl, inr, false, ◌&&◌, List, [], ◌∷◌, ◌++◌, map, arith, All, All-append,
  if◌then◌else◌, Bool-cases, ||-eq-false, sym, Bool, true, not, none,
}
use mathlib.Core.Path.{subst}
use deterministic_audit_runt.RunLedger.Listing.{
  is_listed, advance_at, for_executions, CandidateSummary, advance, update_outcomes, known_id,
  collect_proposed, listed_candidates, add_proposed,
}
use deterministic_audit_runt.Json.Canonical.{equals}
use deterministic_audit_runt.Json.{
  null, bool, int, float, str, arr, obj, Json, is_falsy, get, get_default, str, bool, int, float,
  arr, obj,
}
use deterministic_audit_runt.RunLedger.File.{field_is}
use deterministic_audit_runt.RunLedger.Lineage.{hashable}
use deterministic_audit_runt.RunLedger.Candidates.{proposed}
use deterministic_audit_runt.RunLedger.Traces.{refs_of}

-- What every turn of the loop keeps holds at its end.
pub for_executions_keeps {ℓ κ} :
    {S : Type ℓ} (P : S → Type κ) (body : Json → S → Result S) (audit_id : String)
    → ((entry : Json) (s t : S) → body entry s ≡ ok t → P s → P t)
    → (entries : List Json) (s t : S) → for_executions body audit_id entries s ≡ ok t
    → P s
    → P t
unfolding for_executions
for_executions_keeps P body audit_id keeps [] s t h p = subst P (ok_inj h) p
for_executions_keeps P body audit_id keeps (e ∷ es) s t h p =
    let wanted = field_is "entry_type" "worker_execution" e && field_is "audit_id" audit_id e in
    let (next, turn, rest) = >>=-eq-ok (if wanted then body e s else ok s) _ h in
    for_executions_keeps P body audit_id keeps es next t rest (elim (Bool-cases wanted) [
      | inl q ↦ keeps e s next (rw q at turn) p
      | inr q ↦ subst P (ok_inj (rw q at turn)) p
    ])

-- No two summaries are of the same candidate.
unfoldable pub AreDistinct : List CandidateSummary → Type 0
unfolding equals
AreDistinct [] = Unit
AreDistinct (c ∷ cs) = All (λ d. equals c.candidate_id d.candidate_id ≡ false) cs × AreDistinct cs

AreDistinct-append :
    (c : CandidateSummary) (cs : List CandidateSummary)
    → is_listed c.candidate_id cs ≡ false
    → AreDistinct cs
    → AreDistinct (cs ++ c ∷ [])
unfolding AreDistinct is_listed
AreDistinct-append c [] h k = (tt, tt)
AreDistinct-append c (d ∷ ds) h (k, ks) =
    let (other, others) = ||-eq-false _ _ h in
    (
      All-append (λ e. equals d.candidate_id e.candidate_id ≡ false) ds (c ∷ []) k (other, tt),
      AreDistinct-append c ds others ks,
    )

id_kept :
    (id event_type promoted : Json) (c : CandidateSummary)
    → (advance_at id event_type promoted c).candidate_id ≡ c.candidate_id
unfolding advance_at advance
id_kept id event_type promoted c = ground arith

map-All_others :
    (id event_type promoted : Json) (c : CandidateSummary) (cs : List CandidateSummary)
    → All (λ d. equals c.candidate_id d.candidate_id ≡ false) cs
    → All
        (λ d. equals (advance_at id event_type promoted c).candidate_id d.candidate_id ≡ false)
        (map (advance_at id event_type promoted) cs)
map-All_others id event_type promoted c [] h = tt
map-All_others id event_type promoted c (d ∷ ds) (h, hs) = (
  rw (id_kept id event_type promoted c, id_kept id event_type promoted d) h,
  map-All_others id event_type promoted c ds hs,
)

map-AreDistinct :
    (id event_type promoted : Json) (cs : List CandidateSummary)
    → AreDistinct cs
    → AreDistinct (map (advance_at id event_type promoted) cs)
unfolding AreDistinct
map-AreDistinct id event_type promoted [] h = tt
map-AreDistinct id event_type promoted (c ∷ cs) (h, hs) =
    (map-All_others id event_type promoted c cs h, map-AreDistinct id event_type promoted cs hs)

hashable-eq : (v w : Json) → hashable v ≡ ok w → v ≡ w
unfolding hashable
hashable-eq null w h = ok_inj h
hashable-eq (bool b) w h = ok_inj h
hashable-eq (int n) w h = ok_inj h
hashable-eq (float s) w h = ok_inj h
hashable-eq (str s) w h = ok_inj h
hashable-eq (arr vs) w h = absurd (err_ne_ok h)
hashable-eq (obj fs) w h = absurd (err_ne_ok h)

-- An id that is not falsy is known if it is listed.
known_id-unlisted :
    (id : Json) (cs : List CandidateSummary)
    → is_falsy id ≡ false
    → known_id id cs ≡ ok false
    → is_listed id cs ≡ false
unfolding known_id
known_id-unlisted id cs h k =
    let (key, hashed, listed) = >>=-eq-ok (hashable id) _ (rw h at k) in
    subst (λ v. is_listed v cs ≡ false) (sym (hashable-eq id key hashed)) (ok_inj listed)

new_summary-AreDistinct :
    (c : CandidateSummary) (cs next : List CandidateSummary)
    → is_falsy c.candidate_id ≡ false
    → (known_id c.candidate_id cs >>= (λ known. ok (if known then cs else cs ++ c ∷ []))) ≡ ok next
    → AreDistinct cs
    → AreDistinct next
new_summary-AreDistinct c cs next given h distinct =
    let (known, looked, rest) = >>=-eq-ok (known_id c.candidate_id cs) _ h in
    elim (Bool-cases known) [
      | inl q ↦ subst AreDistinct (ok_inj (rw q at rest)) distinct
      | inr q ↦ subst AreDistinct (ok_inj (rw q at rest)) (
          AreDistinct-append c cs (known_id-unlisted c.candidate_id cs given (rw q at looked))
            distinct)
    ]

not_falsy : (a b : Bool) → (a && not b) ≡ true → b ≡ false
not_falsy true b h = ground arith
not_falsy false b h = cc

add_proposed-AreDistinct :
    (event_type : Json) (c : CandidateSummary) (cs next : List CandidateSummary)
    → add_proposed event_type c cs ≡ ok next
    → AreDistinct cs
    → AreDistinct next
unfolding add_proposed
add_proposed-AreDistinct event_type c cs next h distinct =
    let wanted = equals event_type (str "candidate.proposed") && not (is_falsy c.candidate_id) in
    elim (Bool-cases wanted) [
      | inl q ↦ new_summary-AreDistinct c cs next (not_falsy _ _ q) (rw q at h) distinct
      | inr q ↦ subst AreDistinct (ok_inj (rw q at h)) distinct
    ]

collect_proposed-AreDistinct :
    (refs : List Json) (cs next : List CandidateSummary)
    → collect_proposed refs cs ≡ ok next
    → AreDistinct cs
    → AreDistinct next
unfolding collect_proposed
collect_proposed-AreDistinct [] cs next h distinct = subst AreDistinct (ok_inj h) distinct
collect_proposed-AreDistinct (r ∷ refs) cs next h distinct =
    let (event_type, _, h1) = >>=-eq-ok (get "event_type" r) _ h in
    let (id, _, h2) = >>=-eq-ok (get "entity_id" r) _ h1 in
    let (candidate_type, _, h3) = >>=-eq-ok (get_default "candidate_type" (str "unknown") r) _ h2 in
    let (event_id, _, h4) = >>=-eq-ok (get "event_id" r) _ h3 in
    let c : CandidateSummary = record {
      candidate_id = id;
      candidate_type = candidate_type;
      outcome = proposed;
      proposed_event_id = event_id;
      promoted_observation_id = none;
    } in
    let (grown, turn, h5) = >>=-eq-ok (add_proposed event_type c cs) _ h4 in
    collect_proposed-AreDistinct refs grown next h5
      (add_proposed-AreDistinct event_type c cs grown turn distinct)

update_outcomes-AreDistinct :
    (refs : List Json) (cs next : List CandidateSummary)
    → update_outcomes refs cs ≡ ok next
    → AreDistinct cs
    → AreDistinct next
unfolding update_outcomes
update_outcomes-AreDistinct [] cs next h distinct = subst AreDistinct (ok_inj h) distinct
update_outcomes-AreDistinct (r ∷ refs) cs next h distinct =
    let (event_type, _, h1) = >>=-eq-ok (get "event_type" r) _ h in
    let (id, _, h2) = >>=-eq-ok (get "entity_id" r) _ h1 in
    let (known, _, h3) = >>=-eq-ok (known_id id cs) _ h2 in
    let (promoted, _, h4) = >>=-eq-ok (get "promoted_observation_id" r) _ h3 in
    update_outcomes-AreDistinct refs _ next h4 (elim (Bool-cases known) [
      | inl q ↦ rw q (map-AreDistinct id event_type promoted cs distinct)
      | inr q ↦ rw q distinct
    ])

pub listed_candidates-AreDistinct :
    (audit_id : String) (entries : List Json) (cs : List CandidateSummary)
    → listed_candidates audit_id entries ≡ ok cs
    → AreDistinct cs
unfolding listed_candidates AreDistinct
listed_candidates-AreDistinct audit_id entries cs h =
    let (found, first_pass, second_pass) =
      >>=-eq-ok
        (for_executions
          (λ entry s. refs_of "accepted_events" entry >>= λ refs. collect_proposed refs s) audit_id
          entries [])
        _ h in
    for_executions_keeps AreDistinct _ audit_id
      (λ entry s t turn.
        let (refs, _, update) = >>=-eq-ok (refs_of "accepted_events" entry) _ turn in
        update_outcomes-AreDistinct refs s t update)
      entries found cs second_pass
      (for_executions_keeps AreDistinct _ audit_id
        (λ entry s t turn.
          let (refs, _, collect) = >>=-eq-ok (refs_of "accepted_events" entry) _ turn in
          collect_proposed-AreDistinct refs s t collect)
        entries [] found first_pass tt)
