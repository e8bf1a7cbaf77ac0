-- ===== src/Tasks/Planner/Counts.antt =====
-- The budgets that a planning run of runtime/tasks.py starts with.
use deterministic_audit_runt.Errors.{ok, >>=-eq-ok, ok_inj}
use deterministic_audit_runt.Prelude.{
  ℕ, suc, ◌+◌, ◌≡◌, true, List, [], ◌∷◌, arith, if◌then◌else◌, inl, inr, Bool-cases, refl, ◌&&◌,
}
use deterministic_audit_runt.Tasks.Types.{
  TaskType, module_scan, generate_candidates, AuditTask, verify_claim, compose_issue,
}
use deterministic_audit_runt.Tasks.Planner.Limits.{
  Budgets, existing_budgets, count_existing, is_active,
}
use mathlib.Core.Path.{subst}
use deterministic_audit_runt.Tasks.Planner.Refs.{source_budget_key}
use deterministic_audit_runt.Json.{Fields}
use deterministic_audit_runt.Tasks.Planner.Budget.{type_eq}

-- How many of the tasks are active and of a type.
unfoldable pub active : TaskType → List AuditTask → ℕ
active ty [] = 0
active ty (t ∷ ts) =
    let rest = active ty ts in
    if is_active t.status && type_eq t.task_type ty then suc rest else rest

-- The budgets that a run starts with.
unfoldable pub Counts : Budgets → List AuditTask → Budgets → Type 0
Counts b ts c =
    (c.verify_claim_active_total ≡ active verify_claim ts + b.verify_claim_active_total)
    × (c.compose_issue_active_total ≡ active compose_issue ts + b.compose_issue_active_total)
    × (c.enqueued_verify_claim_this_iteration ≡ b.enqueued_verify_claim_this_iteration)

one-Counts :
    (observations : Fields) (t : AuditTask) (ty : TaskType) (b c : Budgets)
    → t.task_type ≡ ty
    → is_active t.status ≡ true
    → count_existing observations t ty b ≡ ok c
    → Counts b (t ∷ []) c
unfolding count_existing Counts active
one-Counts observations t verify_claim b c e a h =
    subst (Counts b (t ∷ [])) (ok_inj h) (ground arith)
one-Counts observations t compose_issue b c e a h =
    let (source, _, h1) = >>=-eq-ok (source_budget_key observations t) _ h in
    subst (Counts b (t ∷ [])) (ok_inj h1) (ground arith)
one-Counts observations t module_scan b c e a h =
    subst (Counts b (t ∷ [])) (ok_inj h) (ground arith)
one-Counts observations t generate_candidates b c e a h =
    subst (Counts b (t ∷ [])) (ok_inj h) (ground arith)

first-Counts :
    (observations : Fields) (t : AuditTask) (b c : Budgets)
    → (if is_active t.status then count_existing observations t t.task_type b else ok b) ≡ ok c
    → Counts b (t ∷ []) c
unfolding Counts active
first-Counts observations t b c h = elim (Bool-cases (is_active t.status)) [
  | inl q ↦ one-Counts observations t t.task_type b c refl q (rw q at h)
  | inr q ↦ subst (Counts b (t ∷ [])) (ok_inj (rw q at h)) (ground arith)
]

join-Counts :
    (t : AuditTask) (ts : List AuditTask) (b c d : Budgets)
    → Counts b (t ∷ []) c
    → Counts c ts d
    → Counts b (t ∷ ts) d
unfolding Counts active
join-Counts t ts b c d (h, h', h'') (k, k', k'') = ground arith

Counts-nil : (b : Budgets) → Counts b [] b
unfolding Counts active
Counts-nil b = (omega arith, omega arith, refl)

pub existing_budgets-Counts :
    (observations : Fields) (ts : List AuditTask) (b c : Budgets)
    → existing_budgets observations ts b ≡ ok c
    → Counts b ts c
unfolding existing_budgets
existing_budgets-Counts observations [] b c h = subst (Counts b []) (ok_inj h) (Counts-nil b)
existing_budgets-Counts observations (t ∷ ts) b c h =
    let (counted, turn, rest) =
      >>=-eq-ok (if is_active t.status then count_existing observations t t.task_type b else ok b) _
        h in
    join-Counts t ts b counted c (first-Counts observations t b counted turn)
      (existing_budgets-Counts observations ts counted c rest)
