-- ===== src/Tasks/Planner/Loop.antt =====
-- What the loop of a planning run of runtime/tasks.py keeps.
use deterministic_audit_runt.Errors.{Result, ok, err, >>=-eq-ok, ok_inj}
use deterministic_audit_runt.Prelude.{String, ◌≡◌, false, List, [], ◌∷◌, arith, if◌then◌else◌, refl}
use deterministic_audit_runt.Policies.{AuditPolicy}
use deterministic_audit_runt.Tasks.Types.{
  TaskType, module_scan, generate_candidates, AuditTask, verify_claim, compose_issue, Host,
}
use deterministic_audit_runt.Tasks.Planner.Limits.{
  proceed, Budgets, compose_verdict, proceed, count_enqueued, suppress, budget_verdict, Verdict,
  defer,
}
use deterministic_audit_runt.Tasks.Queue.{
  enqueued, duplicate, QueueFile, EnqueueResult, EnqueueOutcome, is_enqueued,
}
use deterministic_audit_runt.Tasks.Planner.Plan.{
  suppressed_near_duplicate, deferred_guardrail, PlanResult, stored_as, enqueue_task, KeyedIds,
  plan_verdict, PlanState, act, plan_loop, after_enqueue, go_on,
}
use mathlib.Core.Path.{ap, subst}
use deterministic_audit_runt.Tasks.Planner.Refs.{Shown, SemanticKey, source_budget_key}
use deterministic_audit_runt.Json.{Fields}
use deterministic_audit_runt.Tasks.Planner.Budget.{
  is_added, IsWithin, added, idle-IsWithin, verify-IsWithin, compose-IsWithin,
}
use deterministic_audit_runt.Tasks.Planner.Added.{enqueue_task-added, verdict-proceed}

-- The result of a task that was handed to the queue.
abbrev handed : EnqueueResult → PlanResult
handed r = record { plan_outcome = stored_as r.outcome; task = r.task }

compose_verdict-proceed :
    (policy : AuditPolicy) (observations : Fields) (b : Budgets) (t : AuditTask) (source : String)
    → budget_verdict policy observations b t compose_issue ≡ ok (proceed source)
    → (key : String) × (compose_verdict policy.compose_issue_budget b key ≡ proceed source)
unfolding budget_verdict
compose_verdict-proceed policy observations b t source h =
    let (key, _, h1) = >>=-eq-ok (source_budget_key observations t) _ h in (key, ok_inj h1)

-- By the type of the task that was added.
added-IsWithin :
    (policy : AuditPolicy) (observations : Fields) (b : Budgets) (t : AuditTask) (source : String)
    (ty : TaskType) (r : EnqueueResult) (rs : List PlanResult)
    → budget_verdict policy observations b t ty ≡ ok (proceed source)
    → r.outcome ≡ enqueued
    → r.task.task_type ≡ ty
    → IsWithin policy (count_enqueued t source ty b) rs
    → IsWithin policy b (handed r ∷ rs)
unfolding budget_verdict
added-IsWithin policy observations b t source verify_claim r rs v o e w =
    verify-IsWithin policy b t source (handed r) rs (rw (o, e) refl) (rw (o, e) refl) (ok_inj v) w
added-IsWithin policy observations b t source compose_issue r rs v o e w =
    let (key, verdict) = compose_verdict-proceed policy observations b t source v in
    compose-IsWithin policy b t source key (handed r) rs (rw (o, e) refl) (rw (o, e) refl) verdict w
added-IsWithin policy observations b t source module_scan r rs v o e w =
    idle-IsWithin policy b (handed r) rs (rw (o, e) refl) (rw (o, e) refl) w
added-IsWithin policy observations b t source generate_candidates r rs v o e w =
    idle-IsWithin policy b (handed r) rs (rw (o, e) refl) (rw (o, e) refl) w

handed-IsWithin :
    (policy : AuditPolicy) (observations : Fields) (b : Budgets) (t : AuditTask) (source : String)
    (r : EnqueueResult) (rs : List PlanResult) (o : EnqueueOutcome)
    → budget_verdict policy observations b t t.task_type ≡ ok (proceed source)
    → r.outcome ≡ o
    → (r.outcome ≡ enqueued → r.task ≡ t)
    → IsWithin policy (if is_enqueued r then count_enqueued t source t.task_type b else b) rs
    → IsWithin policy b (handed r ∷ rs)
handed-IsWithin policy observations b t source r rs duplicate v o same w =
    idle-IsWithin policy b (handed r) rs (rw o refl) (rw o refl) (rw (is_enqueued, o) at w)
handed-IsWithin policy observations b t source r rs enqueued v o same w =
    added-IsWithin policy observations b t source t.task_type r rs v o
      (ap (λ u. u.task_type) (same o)) (rw (is_enqueued, o) at w)

module _ (host : Host) (p : Shown) (policy : AuditPolicy) (observations : Fields)
    (existing : KeyedIds) where
  -- A turn that ends keeps the counts within their limits, if the turns behind it do.
  abbrev Keeps : Budgets → Result (PlanResult × PlanState) → Type 0
  Keeps b out =
      (r : PlanResult) (next : PlanState) (rs : List PlanResult)
      → out ≡ ok (r, next)
      → IsWithin policy next.budgets rs
      → IsWithin policy b (r ∷ rs)

  kept_state :
      (s : PlanState) (r : PlanResult)
      → is_added verify_claim r ≡ false
      → is_added compose_issue r ≡ false
      → Keeps s.budgets (ok (r, s))
  kept_state s r h k r' next rs e =
      subst (λ x. IsWithin policy x.1.budgets rs → IsWithin policy s.budgets (x.0 ∷ rs)) (ok_inj e)
        (idle-IsWithin policy s.budgets r rs h k)

  enqueued-Keeps :
      (t : AuditTask) (s : PlanState) (key : SemanticKey) (source : String) (file : QueueFile)
      (m : Result (EnqueueResult × QueueFile))
      → budget_verdict policy observations s.budgets t t.task_type ≡ ok (proceed source)
      → enqueue_task host t file ≡ m
      → Keeps s.budgets (after_enqueue host p policy observations existing t s key source m file).0
  unfolding after_enqueue
  enqueued-Keeps t s key source file (err e) v q r next rs h = cc
  enqueued-Keeps t s key source file (ok (found, written)) v q r next rs h =
      subst (λ x. IsWithin policy x.1.budgets rs → IsWithin policy s.budgets (x.0 ∷ rs)) (ok_inj h)
        (handed-IsWithin policy observations s.budgets t source found rs found.outcome v refl
          (enqueue_task-added host t file written found q))

  act-Keeps :
      (t : AuditTask) (s : PlanState) (v : Result (SemanticKey × Verdict)) (file : QueueFile)
      → plan_verdict host p policy observations existing t s ≡ v
      → Keeps s.budgets (act host p policy observations existing t s v file).0
  unfolding act
  act-Keeps t s (err e) file v = λ r next rs h. cc
  act-Keeps t s (ok (key, suppress)) file v =
      kept_state s (record { plan_outcome = suppressed_near_duplicate; task = t }) refl refl
  act-Keeps t s (ok (key, defer)) file v =
      kept_state s (record { plan_outcome = deferred_guardrail; task = t }) refl refl
  act-Keeps t s (ok (key, proceed source)) file v =
      enqueued-Keeps t s key source file (enqueue_task host t file)
        (verdict-proceed host p policy observations existing t s key source v) refl

  go_on-IsWithin :
      (b : Budgets) (out : Result (PlanResult × PlanState) × QueueFile)
      (k : PlanState → QueueFile → Result (List PlanResult) × QueueFile) (rs : List PlanResult)
      → Keeps b out.0
      → ((s : PlanState) (file : QueueFile) (rs : List PlanResult)
          → (k s file).0 ≡ ok rs
          → IsWithin policy s.budgets rs)
      → (go_on host p policy observations existing out k).0 ≡ ok rs
      → IsWithin policy b rs
  go_on-IsWithin b (err e, file) k rs keeps rest h = cc
  go_on-IsWithin b (ok (r, s), file) k rs keeps rest h =
      let (later, done, joined) = >>=-eq-ok (k s file).0 _ h in
      subst (IsWithin policy b) (ok_inj joined) (keeps r s later refl (rest s file later done))

  nothing-IsWithin : (b : Budgets) → IsWithin policy b []
  unfolding IsWithin added
  nothing-IsWithin b = (omega arith, omega arith, omega arith)

  -- From any state of the loop on.
  pub plan_loop-IsWithin :
      (ts : List AuditTask) (s : PlanState) (file : QueueFile) (rs : List PlanResult)
      → (plan_loop host p policy observations existing ts s file).0 ≡ ok rs
      → IsWithin policy s.budgets rs
  unfolding plan_loop
  plan_loop-IsWithin [] s file rs h =
      subst (IsWithin policy s.budgets) (ok_inj h) (nothing-IsWithin s.budgets)
  plan_loop-IsWithin (t ∷ ts) s file rs h =
      go_on-IsWithin s.budgets
        (act host p policy observations existing t s
          (plan_verdict host p policy observations existing t s) file)
        (plan_loop host p policy observations existing ts) rs
        (act-Keeps t s (plan_verdict host p policy observations existing t s) file refl)
        (λ next f later. plan_loop-IsWithin ts next f later) h
