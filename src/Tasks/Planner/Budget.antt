-- ===== src/Tasks/Planner/Budget.antt =====
-- What a planning run of runtime/tasks.py may add to the queue.
use deterministic_audit_runt.Prelude.{
  ℕ, suc, ◌+◌, ◌≤◌, max, String, ◌≡◌, Bool, true, false, List, [], ◌∷◌, arith, if◌then◌else◌,
}
use deterministic_audit_runt.Prelude.Int.{ℤ, pos, negsuc}
use deterministic_audit_runt.Policies.{at_limit, AuditPolicy}
use deterministic_audit_runt.Tasks.Types.{
  TaskType, module_scan, generate_candidates, AuditTask, verify_claim, compose_issue,
}
use deterministic_audit_runt.Tasks.Planner.Limits.{
  proceed, Budgets, compose_verdict, verify_verdict, proceed, count_enqueued,
}
use deterministic_audit_runt.Tasks.Queue.{enqueued, duplicate}
use deterministic_audit_runt.Tasks.Planner.Plan.{
  suppressed_near_duplicate, deferred_guardrail, PlanResult, stored_as,
}

-- A limit as a number of tasks: a negative one allows none.
abbrev pub limit_of : ℤ → ℕ
limit_of (pos n) = n
limit_of (negsuc n) = 0

pub at_limit-lt : (n : ℕ) (l : ℤ) → at_limit n l ≡ false → suc n ≤ limit_of l
unfolding at_limit
at_limit-lt n (pos m) h = ground arith
at_limit-lt n (negsuc m) h = cc

abbrev pub type_eq : TaskType → TaskType → Bool
type_eq verify_claim verify_claim = true
type_eq compose_issue compose_issue = true
type_eq module_scan module_scan = true
type_eq generate_candidates generate_candidates = true
type_eq _ _ = false

-- Whether a result is a task of the type that was added to the queue.
abbrev pub is_added : TaskType → PlanResult → Bool
is_added ty r = elim r.plan_outcome [
  | stored_as o ↦ elim o [ enqueued ↦ type_eq r.task.task_type ty | duplicate ↦ false ]
  | suppressed_near_duplicate ↦ false
  | deferred_guardrail ↦ false
]

-- How many there are.
unfoldable pub added : TaskType → List PlanResult → ℕ
added ty [] = 0
added ty (r ∷ rs) = let rest = added ty rs in if is_added ty r then suc rest else rest

-- The three counts that the loop keeps below their limits.
unfoldable pub IsWithin : AuditPolicy → Budgets → List PlanResult → Type 0
IsWithin policy b rs =
    (added verify_claim rs + b.enqueued_verify_claim_this_iteration
      ≤ max b.enqueued_verify_claim_this_iteration
          (limit_of policy.verify_claim_budget.max_follow_up_per_iteration))
    × (added verify_claim rs + b.verify_claim_active_total
        ≤ max b.verify_claim_active_total (limit_of policy.verify_claim_budget.max_per_audit))
    × (added compose_issue rs + b.compose_issue_active_total
        ≤ max b.compose_issue_active_total (limit_of policy.compose_issue_budget.max_per_audit))

-- A turn whose task is not added leaves the counts alone.
pub idle-IsWithin :
    (policy : AuditPolicy) (b : Budgets) (r : PlanResult) (rs : List PlanResult)
    → is_added verify_claim r ≡ false
    → is_added compose_issue r ≡ false
    → IsWithin policy b rs
    → IsWithin policy b (r ∷ rs)
unfolding IsWithin added
idle-IsWithin policy b r rs h k w = rw (h, k) w

pub verify-IsWithin :
    (policy : AuditPolicy) (b : Budgets) (t : AuditTask) (source : String) (r : PlanResult)
    (rs : List PlanResult)
    → is_added verify_claim r ≡ true
    → is_added compose_issue r ≡ false
    → verify_verdict policy.verify_claim_budget b t ≡ proceed source
    → IsWithin policy (count_enqueued t source verify_claim b) rs
    → IsWithin policy b (r ∷ rs)
unfolding IsWithin added
verify-IsWithin policy b t source r rs h k v (w, w', w'') = ground (
  arith,
  at_limit-lt b.enqueued_verify_claim_this_iteration
      policy.verify_claim_budget.max_follow_up_per_iteration,
  at_limit-lt b.verify_claim_active_total policy.verify_claim_budget.max_per_audit,
)

pub compose-IsWithin :
    (policy : AuditPolicy) (b : Budgets) (t : AuditTask) (source key : String) (r : PlanResult)
    (rs : List PlanResult)
    → is_added verify_claim r ≡ false
    → is_added compose_issue r ≡ true
    → compose_verdict policy.compose_issue_budget b key ≡ proceed source
    → IsWithin policy (count_enqueued t source compose_issue b) rs
    → IsWithin policy b (r ∷ rs)
unfolding IsWithin added
compose-IsWithin policy b t source key r rs h k v w =
    ground
      (arith, at_limit-lt b.compose_issue_active_total policy.compose_issue_budget.max_per_audit)
