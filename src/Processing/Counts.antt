-- ===== src/Processing/Counts.antt =====
-- What a call of `process_candidate_events` in runtime/processing.py reports and leaves behind.
use deterministic_audit_runt.Prelude.{
  ◌≡◌, refl, ℕ, ◌+◌, ◌≤◌, String, List, [], ◌∷◌, none, some, Option, length, arith, sym, ◌∙◌,
}
use deterministic_audit_runt.Errors.{Result, ok, err, >>=-eq-ok, ok_inj}
use deterministic_audit_runt.Json.{Json}
use deterministic_audit_runt.EventStore.{LedgerFile, recover_ledger}
use deterministic_audit_runt.EventStore.Repair.{
  IsSound, after_repair_of_IsSound, iter_stored_events_of_IsSound,
}
use deterministic_audit_runt.EventStore.Append.{IsClosed}
use deterministic_audit_runt.Projector.{build_state, Built}
use deterministic_audit_runt.Processing.{
  accepted, rejected, Runtime, Processed, ProcessingResult, count_accepted, result_for,
  process_from, after_recovered, recover_runtime_state, project_accepted, finish, after_resolution,
  after_recovery, after_alignment, process_candidate_events, rebuilt, resolve_projection_audit_id,
  appended_audit_ids, EventVerdict, validate_batch_audit_alignment,
}
use deterministic_audit_runt.Processing.Growth.{HasGrown, AreNumbered, process_from-HasGrown}
use mathlib.Core.Path.{ap, subst}
use deterministic_audit_runt.Processing.Batch.{
  validate_batch_audit_alignment, appended_audit_ids, resolve_projection_audit_id,
}
use deterministic_audit_runt.Processing.Types.{EventVerdict}

-- The numbers of a result agree with the candidates, with its outcomes and with the ledger.
pub record Accounts (candidates : List Json) (f g : LedgerFile) (result : ProcessingResult)
    : Type 0 where
  pub grown : HasGrown f g result.event_outcomes
  pub in_order : AreNumbered 0 candidates result.event_outcomes
  pub total_eq : result.total_candidate_events ≡ length candidates
  pub accepted_eq : result.accepted_events ≡ count_accepted result.event_outcomes
  pub sum_eq : result.accepted_events + result.rejected_events ≡ result.total_candidate_events

count_accepted-le :
    (n : ℕ) (candidates : List Json) (ps : List Processed)
    → AreNumbered n candidates ps
    → count_accepted ps ≤ length candidates
unfolding count_accepted
count_accepted-le n [] [] h = omega arith
count_accepted-le n (c ∷ cs) (p ∷ ps) h =
    go p.outcome.outcome refl (count_accepted-le (n + 1) cs ps h.1)
  where
    go :
        (v : EventVerdict)
        → p.outcome.outcome ≡ v
        → count_accepted ps ≤ length cs
        → count_accepted (p ∷ ps) ≤ length (c ∷ cs)
    go accepted e le = rw e (omega arith)
    go rejected e le = rw e (omega arith)
count_accepted-le n [] (p ∷ ps) h = elim h [ ]
count_accepted-le n (c ∷ cs) [] h = elim h [ ]

module _ (runtime : Runtime) where
  recover_ledger_of_IsSound : (f : LedgerFile) → IsSound f → recover_ledger f ≡ (ok tt, f)
  unfolding recover_ledger
  recover_ledger_of_IsSound f s = after_repair_of_IsSound f _ s

  rebuilt-file : (id : Option String) (out : Result Built × LedgerFile) → (rebuilt id out).1 ≡ out.1
  rebuilt-file id (err e, f) = refl
  rebuilt-file id (ok built, f) = refl

  -- Rebuilding the state reads a repaired ledger and does not change it.
  recover_runtime_state-file :
      (id : Option String) (f : LedgerFile) → IsSound f → (recover_runtime_state runtime id f).1 ≡ f
  unfolding recover_runtime_state after_recovered build_state
  recover_runtime_state-file id f s =
      rw (recover_runtime_state, recover_ledger_of_IsSound f s, after_recovered)
        (rebuilt-file id (build_state runtime.env.state_errors id f)
          ∙ ap (λ x. x.1) (iter_stored_events_of_IsSound id f s))

  project_accepted-file :
      (id : Option String) (ids : List String) (f : LedgerFile)
      → IsSound f
      → (project_accepted runtime id ids f).1 ≡ f
  unfolding project_accepted
  project_accepted-file none ids f s = refl
  project_accepted-file (some id) [] f s = refl
  project_accepted-file (some id) (a ∷ ids) f s = recover_runtime_state-file (some id) f s

module _ (runtime : Runtime) (requested : Option String) (candidates : List Json)
    (f : LedgerFile) where
  after_resolution-Accounts :
      (outcomes : List Processed) (h : LedgerFile) (id : Result (Option String)) (g : LedgerFile)
      (result : ProcessingResult)
      → HasGrown f h outcomes
      → AreNumbered 0 candidates outcomes
      → after_resolution runtime requested candidates outcomes h id ≡ (ok result, g)
      → Accounts candidates f g result
  unfolding after_resolution result_for
  after_resolution-Accounts outcomes h (err e) g result grown numbered q = cc
  after_resolution-Accounts outcomes h (ok id) g result grown numbered q =
      let (projection, e, same) =
        >>=-eq-ok (project_accepted runtime id (appended_audit_ids outcomes) h).0 _
          (ap (λ x. x.0) q) in
      let same_file =
        sym (project_accepted-file runtime id (appended_audit_ids outcomes) h grown.closed.sound)
        ∙ ap (λ x. x.1) q in
      let bound = count_accepted-le 0 candidates outcomes numbered in
      subst (Accounts candidates f g) (ok_inj same) (record {
        grown = subst (λ g. HasGrown f g outcomes) same_file grown;
        in_order = numbered;
        total_eq = refl;
        accepted_eq = refl;
        sum_eq = omega (arith, bound);
      })

  finish-Accounts :
      (out : Result (List Processed) × LedgerFile) (g : LedgerFile) (result : ProcessingResult)
      → IsClosed f
      → process_from runtime 0 candidates f ≡ out
      → finish runtime requested candidates out ≡ (ok result, g)
      → Accounts candidates f g result
  unfolding finish
  finish-Accounts (err e, h) g result c o q = cc
  finish-Accounts (ok outcomes, h) g result c o q =
      let (grown, numbered) = process_from-HasGrown runtime 0 candidates f h outcomes c o in
      after_resolution-Accounts outcomes h
        (resolve_projection_audit_id requested (appended_audit_ids outcomes)) g result grown
        numbered q

  alignment-Accounts :
      (aligned : Result (Unit {0})) (g : LedgerFile) (result : ProcessingResult)
      → IsClosed f
      → after_alignment runtime requested candidates f aligned ≡ (ok result, g)
      → Accounts candidates f g result
  unfolding after_alignment after_recovery
  alignment-Accounts (err e) g result c q = cc
  alignment-Accounts (ok u) g result c q =
      finish-Accounts (process_from runtime 0 candidates f) g result c refl
        (rw (after_alignment, recover_ledger_of_IsSound runtime f c.sound) at q)

  -- A call that succeeds on a closed ledger reports one outcome for each candidate, in their order;
  -- the accepted and the rejected ones add up to all of them; and the ledger has grown by exactly one
  -- line for each accepted one, with every earlier line as it was.
  pub process_candidate_events-Accounts :
      (g : LedgerFile) (result : ProcessingResult)
      → IsClosed f
      → process_candidate_events runtime requested candidates f ≡ (ok result, g)
      → Accounts candidates f g result
  unfolding process_candidate_events
  process_candidate_events-Accounts g result c q =
      alignment-Accounts (validate_batch_audit_alignment requested candidates) g result c q
