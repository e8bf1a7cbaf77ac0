-- ===== src/RunLedger/Listed.antt =====
-- What list_candidates_by_outcome of runtime/run_ledger.py answers.
use deterministic_audit_runt.Errors.{ok, >>=-eq-ok, ok_inj, err_ne_ok}
use deterministic_audit_runt.Prelude.{
  String, ◌≡◌, ◌∙◌, inl, inr, Option, none, some, List, [], ◌∷◌, arith, ◌==◌, eq_iff, All,
  Bool-cases, Option-cases,
}
use mathlib.Core.Path.{subst}
use deterministic_audit_runt.RunLedger.Listing.{
  list_candidates_by_outcome, CandidateSummary, with_outcome, outcome_name, outcome_named,
  listed_candidates,
}
use deterministic_audit_runt.RunLedger.Candidates.{CandidateStatus}
use deterministic_audit_runt.RunLedger.Distinct.{AreDistinct, listed_candidates-AreDistinct}
use deterministic_audit_runt.EventStore.{LedgerFile}
use deterministic_audit_runt.RunLedger.File.{read_entries}

-- The outcome that was asked for.
unfoldable pub HasOutcome : Option String → CandidateSummary → Type 0
HasOutcome none c = Unit
HasOutcome (some name) c = outcome_name c.outcome ≡ name

with_outcome-All {κ} :
    (P : CandidateSummary → Type κ) (o : CandidateStatus) (cs : List CandidateSummary)
    → All P cs
    → All P (with_outcome o cs)
unfolding with_outcome
with_outcome-All P o [] h = tt
with_outcome-All P o (c ∷ cs) (h, hs) =
    elim (Bool-cases (outcome_name c.outcome == outcome_name o)) [
      | inl q ↦ rw q (h, with_outcome-All P o cs hs)
      | inr q ↦ rw q (with_outcome-All P o cs hs)
    ]

with_outcome-AreDistinct :
    (o : CandidateStatus) (cs : List CandidateSummary)
    → AreDistinct cs
    → AreDistinct (with_outcome o cs)
unfolding with_outcome AreDistinct
with_outcome-AreDistinct o [] h = tt
with_outcome-AreDistinct o (c ∷ cs) (h, hs) =
    elim (Bool-cases (outcome_name c.outcome == outcome_name o)) [
      | inl q ↦ rw q (with_outcome-All _ o cs h, with_outcome-AreDistinct o cs hs)
      | inr q ↦ rw q (with_outcome-AreDistinct o cs hs)
    ]

with_outcome-HasOutcome :
    (name : String) (o : CandidateStatus) (cs : List CandidateSummary)
    → outcome_name o ≡ name
    → All (HasOutcome (some name)) (with_outcome o cs)
unfolding with_outcome HasOutcome
with_outcome-HasOutcome name o [] e = tt
with_outcome-HasOutcome name o (c ∷ cs) e =
    elim (Bool-cases (outcome_name c.outcome == outcome_name o)) [
      | inl q ↦ rw q ((eq_iff _ _).0 q ∙ e, with_outcome-HasOutcome name o cs e)
      | inr q ↦ rw q (with_outcome-HasOutcome name o cs e)
    ]

All_of_none : (cs : List CandidateSummary) → All (HasOutcome none) cs
unfolding HasOutcome
All_of_none [] = tt
All_of_none (c ∷ cs) = (tt, All_of_none cs)

outcome_name-outcome_named :
    (name : String) (o : CandidateStatus) → outcome_named name ≡ some o → outcome_name o ≡ name
outcome_name-outcome_named name o h = ground (
  arith,
  eq_iff name "proposed",
  eq_iff name "routed_to_verify",
  eq_iff name "rejected",
  eq_iff name "resolved_promoted",
)

-- Each candidate stands at most once in the answer of list_candidates_by_outcome, and if an outcome
-- is asked for, each one in the answer has it.
pub list_candidates_by_outcome-AreDistinct :
    (audit_id : String) (outcome : Option String) (file : LedgerFile) (cs : List CandidateSummary)
    → list_candidates_by_outcome audit_id outcome file ≡ ok cs
    → AreDistinct cs × All (HasOutcome outcome) cs
unfolding list_candidates_by_outcome
list_candidates_by_outcome-AreDistinct audit_id none file cs h =
    let (entries, _, listed) = >>=-eq-ok (read_entries file) _ h in
    (listed_candidates-AreDistinct audit_id entries cs listed, All_of_none cs)
list_candidates_by_outcome-AreDistinct audit_id (some name) file cs h =
    elim (Option-cases (outcome_named name)) [
      | inl q ↦ absurd (err_ne_ok (rw (q, list_candidates_by_outcome) at h))
      | inr (o, q) ↦
          let (entries, _, h1) =
            >>=-eq-ok (read_entries file) _ (rw (q, list_candidates_by_outcome) at h) in
          let (found, listed, h2) = >>=-eq-ok (listed_candidates audit_id entries) _ h1 in
          subst (λ l. AreDistinct l × All (HasOutcome (some name)) l) (ok_inj h2)
            (
              with_outcome-AreDistinct o found
                  (listed_candidates-AreDistinct audit_id entries found listed),
              with_outcome-HasOutcome name o found (outcome_name-outcome_named name o q),
            )
    ]
