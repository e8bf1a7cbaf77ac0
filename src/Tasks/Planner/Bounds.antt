-- ===== src/Tasks/Planner/Bounds.antt =====
-- The limits of a planning run of runtime/tasks.py.
use deterministic_audit_runt.Errors.{Result, ok, err, >>=-eq-ok, ok_inj, ◌>>=◌}
use deterministic_audit_runt.Prelude.{
  ◌+◌, ◌≤◌, max, String, ◌≡◌, List, arith, refl, sym, none, some, Option,
}
use deterministic_audit_runt.Policies.{AuditPolicy}
use deterministic_audit_runt.Tasks.Types.{AuditTask, verify_claim, compose_issue, Host}
use deterministic_audit_runt.Tasks.Planner.Limits.{Budgets, existing_budgets, no_budgets}
use deterministic_audit_runt.Tasks.Queue.{QueueFile, list_tasks}
use deterministic_audit_runt.Tasks.Planner.Plan.{
  PlanResult, KeyedIds, PlanState, run_plan, plan_start, keyed_tasks, enqueue_derived,
  enqueue_follow_up_tasks, enqueue_follow_up_candidates, state_or_file, follow_up_of,
}
use mathlib.Core.Path.{subst}
use deterministic_audit_runt.Tasks.Planner.Refs.{Shown}
use deterministic_audit_runt.Json.{Fields, Json}
use deterministic_audit_runt.Prelude.Sort.{sort}
use deterministic_audit_runt.Tasks.Planner.Budget.{IsWithin, limit_of, added}
use deterministic_audit_runt.Tasks.Keys.{task_le}
use deterministic_audit_runt.Tasks.Planner.Counts.{active, Counts, existing_budgets-Counts}
use deterministic_audit_runt.Tasks.Planner.Loop.{plan_loop-IsWithin}

-- The limits of the policy, for the results of a run on a queue with these tasks.
abbrev pub KeepsLimits : AuditPolicy → List AuditTask → List PlanResult → Type 0
KeepsLimits policy existing rs =
    (added verify_claim rs ≤ limit_of policy.verify_claim_budget.max_follow_up_per_iteration)
    × (added verify_claim rs + active verify_claim existing
        ≤ max (active verify_claim existing) (limit_of policy.verify_claim_budget.max_per_audit))
    × (added compose_issue rs + active compose_issue existing
        ≤ max (active compose_issue existing) (limit_of policy.compose_issue_budget.max_per_audit))

start-KeepsLimits :
    (policy : AuditPolicy) (existing : List AuditTask) (b : Budgets) (rs : List PlanResult)
    → Counts no_budgets existing b
    → IsWithin policy b rs
    → KeepsLimits policy existing rs
unfolding Counts IsWithin
start-KeepsLimits policy existing b rs (h, h', h'') (w, w', w'') = ground arith

module _ (host : Host) (p : Shown) (policy : AuditPolicy) where
  run_plan-KeepsLimits :
      (audit_id : String) (observations : Fields) (tasks : List AuditTask) (file : QueueFile)
      (start : Result (KeyedIds × PlanState)) (rs : List PlanResult)
      → plan_start host p policy audit_id observations file ≡ start
      → (run_plan host p policy observations tasks file start).0 ≡ ok rs
      → (existing : List AuditTask) × (list_tasks host
            (record { audit_id = some audit_id; task_type = none; status = none })
            file
          ≡ ok existing)
        × KeepsLimits policy existing rs
  unfolding run_plan plan_start
  run_plan-KeepsLimits audit_id observations tasks file (err e) rs q h = cc
  run_plan-KeepsLimits audit_id observations tasks file (ok (keyed, s)) rs q h =
      let (existing, listed, q1) =
        >>=-eq-ok
          (list_tasks host (record { audit_id = some audit_id; task_type = none; status = none })
            file)
          _ q in
      let (keys, _, q2) = >>=-eq-ok (keyed_tasks p observations existing) _ q1 in
      let (b, counted, q3) = >>=-eq-ok (existing_budgets observations existing no_budgets) _ q2 in
      let within =
        plan_loop-IsWithin host p policy observations keyed (sort task_le tasks) s file rs h in
      (
        existing,
        listed,
        start-KeepsLimits policy existing b rs
            (existing_budgets-Counts observations existing no_budgets b counted)
            (subst (λ x. IsWithin policy x.1.budgets rs) (sym (ok_inj q3)) within),
      )

  enqueue_derived-KeepsLimits :
      (audit_id : String) (derived : Result (Fields × List AuditTask)) (file : QueueFile)
      (rs : List PlanResult)
      → (enqueue_derived host p policy audit_id file derived).0 ≡ ok rs
      → (existing : List AuditTask) × (list_tasks host
            (record { audit_id = some audit_id; task_type = none; status = none })
            file
          ≡ ok existing)
        × KeepsLimits policy existing rs
  unfolding enqueue_derived enqueue_follow_up_candidates
  enqueue_derived-KeepsLimits audit_id (err e) file rs h = cc
  enqueue_derived-KeepsLimits audit_id (ok (observations, tasks)) file rs h =
      run_plan-KeepsLimits audit_id observations tasks file
        (plan_start host p policy audit_id observations file) rs refl h

  -- When a planning run returns its results, the verify_claim tasks that it added are at most
  -- max_follow_up_per_iteration, and together with the active verify_claim tasks of the audit, as
  -- the queue listed them before the run, at most max_per_audit of the verify_claim budget, or none
  -- is added where those are already more; the same holds of the compose_issue tasks and their
  -- budget. A negative limit counts as 0.
  pub enqueue_follow_up_tasks-KeepsLimits :
      (audit_id : String) (canonical_state : Option Json) (created_at : Option String)
      (state_file file : QueueFile) (rs : List PlanResult)
      → (enqueue_follow_up_tasks host p policy audit_id canonical_state created_at state_file
          file).0
        ≡ ok rs
      → (existing : List AuditTask) × (list_tasks host
            (record { audit_id = some audit_id; task_type = none; status = none })
            file
          ≡ ok existing)
        × KeepsLimits policy existing rs
  unfolding enqueue_follow_up_tasks
  enqueue_follow_up_tasks-KeepsLimits audit_id state created_at state_file file rs h =
      enqueue_derived-KeepsLimits audit_id
        (state_or_file host p policy state state_file
          >>= follow_up_of host p policy audit_id created_at)
        file rs h
