-- ===== src/Tasks/Planner/Plan.antt =====
-- The planning loop of runtime/tasks.py, _enqueue_follow_up_candidates: each task is written before
-- the next one is looked at, so that the file is part of the answer also where the loop raises.
use deterministic_audit_runt.Errors.{Result, ok, err, ◌>>=◌, index_error, task_planning_error}
use deterministic_audit_runt.Prelude.{
  String, Bool, false, not, ◌||◌, Option, none, some, List, [], ◌∷◌, ◌==◌, if◌then◌else◌,
}
use deterministic_audit_runt.Tasks.Planner.Refs.{
  semantic_eq, SemanticKey, follow_up_semantic_key, Shown,
}
use deterministic_audit_runt.Tasks.Queue.{
  EnqueueResult, EnqueueOutcome, enqueue_many, QueueFile, list_tasks, is_enqueued,
}
use deterministic_audit_runt.Tasks.Types.{Host, AuditTask}
use deterministic_audit_runt.Tasks.Planner.Limits.{
  Budgets, budget_verdict, Verdict, existing_budgets, suppress, proceed, count_enqueued, defer,
  no_budgets,
}
use deterministic_audit_runt.Policies.{AuditPolicy}
use deterministic_audit_runt.Json.{obj, Fields, get, Json}
use deterministic_audit_runt.Tasks.Planner.Follow.{
  load_canonical_state, audit_snapshot_ref, issue_backed_observation_ids, values_of, with_ids,
  candidate_tasks,
}
use deterministic_audit_runt.Prelude.Sort.{sort}
use deterministic_audit_runt.Tasks.Keys.{task_le}

-- `enqueue_task`: the first result of a batch of one.
unfoldable pub first_result :
    Result (List EnqueueResult × QueueFile) → Result (EnqueueResult × QueueFile)
first_result (err e) = err e
first_result (ok ([], file)) = err index_error
first_result (ok (r ∷ rs, file)) = ok (r, file)

unfoldable pub enqueue_task : Host → AuditTask → QueueFile → Result (EnqueueResult × QueueFile)
unfolding enqueue_many first_result
enqueue_task host t file = first_result (enqueue_many host (t ∷ []) file)

-- The outcomes of an EnqueueResult of the planner.
pub data PlanOutcome : Type 0 where
  stored_as : EnqueueOutcome → PlanOutcome
  suppressed_near_duplicate deferred_guardrail : PlanOutcome

pub record PlanResult : Type 0 where
  pub plan_outcome : PlanOutcome
  pub task : AuditTask

-- Keys with the id of the task that stands under them.
abbrev pub KeyedIds : Type 0
KeyedIds = List (SemanticKey × String)

unfoldable pub id_under : SemanticKey → KeyedIds → Option String
unfolding semantic_eq
id_under key [] = none
id_under key ((k, id) ∷ ks) =
    let later = id_under key ks in if semantic_eq k key then some id else later

-- `found is not None and found.id != task.id`
abbrev pub is_other : AuditTask → Option String → Bool
is_other t none = false
is_other t (some id) = not (id == t.id)

pub record PlanState : Type 0 where
  pub planned_by_semantic_key : KeyedIds
  pub budgets : Budgets

-- A key that is there keeps its task in `setdefault`: the first one is found.
unfoldable pub keyed_tasks : Shown → Fields → List AuditTask → Result KeyedIds
unfolding follow_up_semantic_key
keyed_tasks p observations [] = ok []
keyed_tasks p observations (t ∷ ts) = do
  key ← follow_up_semantic_key p observations t
  others ← keyed_tasks p observations ts
  ok ((key, t.id) ∷ others)

module _ (host : Host) (p : Shown) (policy : AuditPolicy) (observations : Fields)
    (existing_by_semantic_key : KeyedIds) where
  -- The checks of a turn, with the key of its task.
  unfoldable pub plan_verdict : AuditTask → PlanState → Result (SemanticKey × Verdict)
  unfolding follow_up_semantic_key id_under budget_verdict
  plan_verdict t s = do
    key ← follow_up_semantic_key p observations t
    verdict ←
        if is_other t (id_under key existing_by_semantic_key)
          || is_other t (id_under key s.planned_by_semantic_key)
        then ok suppress
        else budget_verdict policy observations s.budgets t t.task_type
    ok (key, verdict)

  -- Behind `enqueue_task`.
  unfoldable pub after_enqueue :
      AuditTask
      → PlanState
      → SemanticKey
      → String
      → Result (EnqueueResult × QueueFile)
      → QueueFile
      → Result (PlanResult × PlanState) × QueueFile
  after_enqueue t s key source (err e) file = (err e, file)
  after_enqueue t s key source (ok (r, written)) file = (
    ok (
      record { plan_outcome = stored_as r.outcome; task = r.task },
      record {
        planned_by_semantic_key = (key, r.task.id) ∷ s.planned_by_semantic_key;
        budgets =
            if is_enqueued r then count_enqueued t source t.task_type s.budgets else s.budgets;
      },
    ),
    written,
  )

  unfoldable pub act :
      AuditTask
      → PlanState
      → Result (SemanticKey × Verdict)
      → QueueFile
      → Result (PlanResult × PlanState) × QueueFile
  unfolding enqueue_task after_enqueue
  act t s (err e) file = (err e, file)
  act t s (ok (key, suppress)) file =
      (ok (record { plan_outcome = suppressed_near_duplicate; task = t }, s), file)
  act t s (ok (key, defer)) file =
      (ok (record { plan_outcome = deferred_guardrail; task = t }, s), file)
  act t s (ok (key, proceed source)) file =
      after_enqueue t s key source (enqueue_task host t file) file

  abbrev pub go_on :
      Result (PlanResult × PlanState) × QueueFile
      → (PlanState → QueueFile → Result (List PlanResult) × QueueFile)
      → Result (List PlanResult) × QueueFile
  go_on (err e, file) k = (err e, file)
  go_on (ok (r, s), file) k = let (rest, final) = k s file in (rest >>= λ rs. ok (r ∷ rs), final)

  unfoldable pub plan_loop :
      List AuditTask → PlanState → QueueFile → Result (List PlanResult) × QueueFile
  unfolding plan_verdict act
  plan_loop [] s file = (ok [], file)
  plan_loop (t ∷ ts) s file = go_on (act t s (plan_verdict t s) file) (plan_loop ts)

module _ (host : Host) (p : Shown) (policy : AuditPolicy) where
  -- What stands before the loop: the keys and the budgets of the tasks of the audit.
  unfoldable pub plan_start : String → Fields → QueueFile → Result (KeyedIds × PlanState)
  unfolding list_tasks keyed_tasks existing_budgets
  plan_start audit_id observations file = do
    existing ←
        list_tasks host (record { audit_id = some audit_id; task_type = none; status = none }) file
    keyed ← keyed_tasks p observations existing
    budgets ← existing_budgets observations existing no_budgets
    ok (keyed, record { planned_by_semantic_key = []; budgets = budgets })

  unfoldable pub run_plan :
      Fields
      → List AuditTask
      → QueueFile
      → Result (KeyedIds × PlanState)
      → Result (List PlanResult) × QueueFile
  unfolding sort task_le plan_loop
  run_plan observations tasks file (err e) = (err e, file)
  run_plan observations tasks file (ok (keyed, s)) =
      plan_loop host p policy observations keyed (sort task_le tasks) s file

  -- `_enqueue_follow_up_candidates`
  unfoldable pub enqueue_follow_up_candidates :
      String → Fields → List AuditTask → QueueFile → Result (List PlanResult) × QueueFile
  unfolding plan_start run_plan
  enqueue_follow_up_candidates audit_id observations tasks file =
      run_plan observations tasks file (plan_start audit_id observations file)

  -- The tasks that a state asks for, with its observations.
  unfoldable pub tasks_of_state :
      String → Option String → Json → Json → Json → Result (Fields × List AuditTask)
  unfolding audit_snapshot_ref issue_backed_observation_ids values_of with_ids candidate_tasks
  tasks_of_state audit_id created_at state (obj observations) (obj issues) = do
    fallback ← audit_snapshot_ref state audit_id
    backed ← issue_backed_observation_ids audit_id (values_of issues)
    sorted_observations ← with_ids (values_of observations)
    tasks ← candidate_tasks host audit_id backed fallback created_at sorted_observations
    ok (observations, tasks)
  tasks_of_state audit_id created_at state _ _ = err task_planning_error

  unfoldable pub follow_up_of : String → Option String → Json → Result (Fields × List AuditTask)
  unfolding get tasks_of_state
  follow_up_of audit_id created_at state = do
    observations ← get "observations" state
    issues ← get "issues" state
    tasks_of_state audit_id created_at state observations issues

  unfoldable pub enqueue_derived :
      String → QueueFile → Result (Fields × List AuditTask) → Result (List PlanResult) × QueueFile
  unfolding enqueue_follow_up_candidates
  enqueue_derived audit_id file (err e) = (err e, file)
  enqueue_derived audit_id file (ok (observations, tasks)) =
      enqueue_follow_up_candidates audit_id observations tasks file

  abbrev pub state_or_file : Option Json → QueueFile → Result Json
  state_or_file (some state) file = ok state
  state_or_file none file = load_canonical_state file

  -- `enqueue_follow_up_tasks`, on a given state or on that of the file.
  unfoldable pub enqueue_follow_up_tasks :
      String
      → Option Json
      → Option String
      → QueueFile
      → QueueFile
      → Result (List PlanResult) × QueueFile
  unfolding load_canonical_state follow_up_of enqueue_derived
  enqueue_follow_up_tasks audit_id canonical_state created_at state_file file =
      enqueue_derived audit_id file
        (state_or_file canonical_state state_file >>= follow_up_of audit_id created_at)
