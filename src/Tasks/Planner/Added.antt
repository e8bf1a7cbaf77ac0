-- ===== src/Tasks/Planner/Added.antt =====
-- What enqueue_task of runtime/tasks.py adds, and when the planner asks for it.
use deterministic_audit_runt.Errors.{Result, ok, err, >>=-eq-ok, ok_inj, err_ne_ok}
use deterministic_audit_runt.Prelude.{
  String, ◌≡◌, List, if◌then◌else◌, ◌∙◌, ◌≢◌, inl, inr, ◌||◌, Bool-cases, refl, sym,
}
use deterministic_audit_runt.Policies.{AuditPolicy}
use deterministic_audit_runt.Tasks.Types.{AuditTask, Host}
use deterministic_audit_runt.Tasks.Planner.Limits.{proceed, proceed, suppress, budget_verdict}
use deterministic_audit_runt.Tasks.Queue.{
  enqueued, duplicate, enqueue_many, enqueue_loop, QueueFile, EnqueueResult, load_tasks,
  enqueue_one,
}
use deterministic_audit_runt.Tasks.Planner.Plan.{
  enqueue_task, KeyedIds, plan_verdict, PlanState, is_other, id_under, first_result,
}
use mathlib.Core.Path.{ap}
use deterministic_audit_runt.Tasks.Planner.Refs.{Shown, SemanticKey, follow_up_semantic_key}
use deterministic_audit_runt.Json.{Fields}
use deterministic_audit_runt.Tasks.Enqueued.{OneAnswer, enqueue_one-Answer}
use deterministic_audit_runt.Prelude.Sort.{sort, insert}

duplicate_ne_enqueued : duplicate ≢ enqueued
duplicate_ne_enqueued same = cc

added_or_found :
    (t : AuditTask) (stored grown : List AuditTask) (r : EnqueueResult)
    → OneAnswer t stored r grown
    → r.outcome ≡ enqueued
    → r.task ≡ t
unfolding OneAnswer
added_or_found t stored grown r (inl (_, e, _)) o = ap (λ r. r.task) e
added_or_found t stored grown r (inr (u, _, _, e, _)) o =
    absurd (duplicate_ne_enqueued (sym (ap (λ r. r.outcome) e) ∙ o))

-- A task that is added is the one that was asked for.
pub enqueue_task-added :
    (host : Host) (t : AuditTask) (file written : QueueFile) (r : EnqueueResult)
    → enqueue_task host t file ≡ ok (r, written)
    → r.outcome ≡ enqueued
    → r.task ≡ t
unfolding enqueue_task first_result enqueue_many enqueue_loop sort insert
enqueue_task-added host t file written r h o = loaded (load_tasks host file) refl
  where
    looked :
        (stored : List AuditTask) (one : Result (EnqueueResult × List AuditTask))
        → load_tasks host file ≡ ok stored
        → enqueue_one t stored ≡ one
        → r.task ≡ t
    looked stored (err e) q l = absurd (err_ne_ok (rw (q, l) at h))
    looked stored (ok (found, grown)) q l =
        let same = ap (λ x. x.0) (ok_inj (rw (q, l) at h)) in
        ap (λ r. r.task) (sym same)
        ∙ added_or_found t stored grown found (enqueue_one-Answer t stored found grown l)
            (ap (λ r. r.outcome) same ∙ o)

    loaded : (l : Result (List AuditTask)) → load_tasks host file ≡ l → r.task ≡ t
    loaded (err e) q = absurd (err_ne_ok (rw q at h))
    loaded (ok stored) q = looked stored (enqueue_one t stored) q refl

suppress_ne_proceed : {source : String} → suppress ≢ proceed source
suppress_ne_proceed same = cc

module _ (host : Host) (p : Shown) (policy : AuditPolicy) (observations : Fields)
    (existing : KeyedIds) where
  pub verdict-proceed :
      (t : AuditTask) (s : PlanState) (key : SemanticKey) (source : String)
      → plan_verdict host p policy observations existing t s ≡ ok (key, proceed source)
      → budget_verdict policy observations s.budgets t t.task_type ≡ ok (proceed source)
  unfolding plan_verdict
  verdict-proceed t s key source h =
      let (k, _, h1) = >>=-eq-ok (follow_up_semantic_key p observations t) _ h in
      let other =
        is_other t (id_under k existing) || is_other t (id_under k s.planned_by_semantic_key) in
      let (v, judged, h2) =
        >>=-eq-ok
          (if other
            then ok suppress
            else budget_verdict policy observations s.budgets t t.task_type)
          _ h1 in
      let same_verdict = ap (λ x. x.1) (ok_inj h2) in
      elim (Bool-cases other) [
        | inl q ↦ absurd (suppress_ne_proceed (ok_inj (rw q at judged) ∙ same_verdict))
        | inr q ↦ rw q at judged ∙ ap ok same_verdict
      ]
