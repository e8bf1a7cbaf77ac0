-- ===== src/Tasks/Planner/Limits.antt =====
-- The budgets of the planner of runtime/tasks.py, in _enqueue_follow_up_candidates.
use deterministic_audit_runt.Errors.{Result, ok, ◌>>=◌}
use deterministic_audit_runt.Prelude.{
  ℕ, suc, String, Bool, true, false, ◌&&◌, ◌||◌, List, [], ◌∷◌, ◌==◌, if◌then◌else◌,
}
use deterministic_audit_runt.Policies.{
  ComposeIssueBudgetPolicy, VerifyClaimBudgetPolicy, at_limit, AuditPolicy,
}
use deterministic_audit_runt.Tasks.Types.{
  TaskStatus, AuditTask, TaskType, verify_claim, pending, running, compose_issue,
}
use deterministic_audit_runt.Json.{Fields}
use deterministic_audit_runt.Tasks.Planner.Refs.{source_budget_key}

-- How often a text stands in a list, which models a dict of counts.
unfoldable pub occurrences : String → List String → ℕ
occurrences s [] = 0
occurrences s (t ∷ ts) = let rest = occurrences s ts in if s == t then suc rest else rest

-- The active tasks that count for the budgets.
pub record Budgets : Type 0 where
  pub verify_claim_active_total : ℕ
  pub verify_claim_active_by_observation : List String
  pub compose_issue_active_total : ℕ
  pub compose_issue_active_by_source : List String
  pub enqueued_verify_claim_this_iteration : ℕ

-- `status in ACTIVE_QUEUE_STATUSES`
abbrev pub is_active : TaskStatus → Bool
is_active pending = true
is_active running = true
is_active _ = false

abbrev pub observed : AuditTask → List String → List String
observed t ids = if t.target.kind == "observation" then t.target.value ∷ ids else ids

abbrev pub count_verify : AuditTask → Budgets → Budgets
count_verify t b = record b {
  verify_claim_active_total = suc b.verify_claim_active_total;
  verify_claim_active_by_observation = observed t b.verify_claim_active_by_observation;
}

abbrev pub count_compose : String → Budgets → Budgets
count_compose source b = record b {
  compose_issue_active_total = suc b.compose_issue_active_total;
  compose_issue_active_by_source = source ∷ b.compose_issue_active_by_source;
}

abbrev pub no_budgets : Budgets
no_budgets = record {
  verify_claim_active_total = 0;
  verify_claim_active_by_observation = [];
  compose_issue_active_total = 0;
  compose_issue_active_by_source = [];
  enqueued_verify_claim_this_iteration = 0;
}

-- What one existing task counts for.
unfoldable pub count_existing : Fields → AuditTask → TaskType → Budgets → Result Budgets
unfolding source_budget_key
count_existing observations t verify_claim b = ok (count_verify t b)
count_existing observations t compose_issue b = do
  source ← source_budget_key observations t
  ok (count_compose source b)
count_existing observations t _ b = ok b

-- The two loops over the existing tasks.
unfoldable pub existing_budgets : Fields → List AuditTask → Budgets → Result Budgets
unfolding count_existing
existing_budgets observations [] b = ok b
existing_budgets observations (t ∷ ts) b = do
  counted ← if is_active t.status then count_existing observations t t.task_type b else ok b
  existing_budgets observations ts counted

-- What becomes of a task that is no near duplicate; a task that is enqueued carries what its budget
-- is counted under.
pub data Verdict : Type 0 where
  proceed : String → Verdict
  suppress defer : Verdict

abbrev pub verify_verdict : VerifyClaimBudgetPolicy → Budgets → AuditTask → Verdict
verify_verdict p b t =
    if at_limit b.enqueued_verify_claim_this_iteration p.max_follow_up_per_iteration
      || at_limit b.verify_claim_active_total p.max_per_audit
    then defer
    else if t.target.kind == "observation"
        && at_limit (occurrences t.target.value b.verify_claim_active_by_observation)
            p.max_per_observation
    then suppress
    else proceed t.target.value

abbrev pub compose_verdict : ComposeIssueBudgetPolicy → Budgets → String → Verdict
compose_verdict p b source =
    if at_limit b.compose_issue_active_total p.max_per_audit
      || at_limit (occurrences source b.compose_issue_active_by_source) p.max_per_source_path
    then defer
    else proceed source

-- The budget checks.
unfoldable pub budget_verdict :
    AuditPolicy → Fields → Budgets → AuditTask → TaskType → Result Verdict
unfolding source_budget_key occurrences at_limit
budget_verdict policy observations b t verify_claim =
    ok (verify_verdict policy.verify_claim_budget b t)
budget_verdict policy observations b t compose_issue = do
  source ← source_budget_key observations t
  ok (compose_verdict policy.compose_issue_budget b source)
budget_verdict policy observations b t _ = ok (proceed t.target.value)

-- What an enqueued task counts for.
abbrev pub count_enqueued : AuditTask → String → TaskType → Budgets → Budgets
count_enqueued t source verify_claim b = record (count_verify t b) {
  enqueued_verify_claim_this_iteration = suc b.enqueued_verify_claim_this_iteration;
}
count_enqueued t source compose_issue b = count_compose source b
count_enqueued t source _ b = b
