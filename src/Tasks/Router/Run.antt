-- ===== src/Tasks/Router/Run.antt =====
-- A run of CandidateRouter of runtime/tasks.py: route_candidates_to_verification.
use deterministic_audit_runt.Prelude.{
  ℕ, suc, String, Bool, true, false, not, Option, none, some, List, [], ◌∷◌, ◌++◌, if◌then◌else◌,
}
use deterministic_audit_runt.Errors.{◌>>=◌, task_queue_error, Result, err, ok}
use deterministic_audit_runt.Tasks.Types.{AuditTask, Host, TaskType, verify_claim, pending}
use deterministic_audit_runt.Tasks.Router.Candidate.{
  RoutingResult, queued_as, create_placeholder_task, deferred_budget, deferred_run_limit, Refusal,
  held_back,
}
use deterministic_audit_runt.Policies.{at_limit, CandidateRoutingPolicy, AuditPolicy}
use deterministic_audit_runt.Tasks.Queue.{
  enqueue_many, EnqueueResult, list_tasks, QueueFile, entry_le, entries,
}
use deterministic_audit_runt.Prelude.Sort.{sort}
use deterministic_audit_runt.Json.{get, Json, str, obj}
use deterministic_audit_runt.Tasks.Router.Guards.{guard_candidate, Guarded, refused, admitted}
use deterministic_audit_runt.Json.Canonical.{equals}
use deterministic_audit_runt.Tasks.Router.Route.{route_by_candidate_type}

-- The counts and the files of a run; `tasks_per_candidate` starts at 0 for each candidate, since
-- their ids differ.
pub record RouterState : Type 0 where
  pub candidates_this_audit : ℕ
  pub verify_tasks_this_run : ℕ
  pub files_seen : List String

-- The results of a turn, the tasks that it routed, and what the next turn starts from.
pub record RouterTurn : Type 0 where
  pub results : List RoutingResult
  pub routed : List AuditTask
  pub next : RouterState

abbrev pub is_verify : TaskType → Bool
is_verify verify_claim = true
is_verify _ = false

-- The results for the tasks of a candidate, the tasks that are routed, and the count of the run.
abbrev pub Budgeted : Type 0
Budgeted = List RoutingResult × (List AuditTask × ℕ)

abbrev pub with_result : Refusal → AuditTask → Budgeted → Budgeted
with_result outcome t (rs, routed) =
    (record { routing_outcome = held_back outcome; task = t } ∷ rs, routed)

abbrev pub with_routed : AuditTask → Budgeted → Budgeted
with_routed t (rs, (ts, verify_tasks)) = (rs, (t ∷ ts, verify_tasks))

-- The loop over the tasks of a candidate, of which so many were routed.
unfoldable pub within_budget : CandidateRoutingPolicy → List AuditTask → ℕ → ℕ → Budgeted
unfolding at_limit
within_budget p [] count verify_tasks = ([], ([], verify_tasks))
within_budget p (t ∷ ts) count verify_tasks =
    let skipped = within_budget p ts count verify_tasks in
    let counted = within_budget p ts (suc count) (suc verify_tasks) in
    let uncounted = within_budget p ts (suc count) verify_tasks in
    if at_limit count p.max_total_tasks_per_candidate
    then with_result deferred_budget t ([], ([], verify_tasks))
    else if not (is_verify t.task_type)
    then with_routed t uncounted
    else if at_limit verify_tasks p.max_verify_tasks_per_run
    then with_result deferred_run_limit t skipped
    else with_routed t counted

module _ (host : Host) (p : CandidateRoutingPolicy) (audit_id : String)
    (audit_snapshot_ref created_at : Option String) where
  -- What a candidate comes to behind the guardrails.
  unfoldable pub after_guards : String → Json → RouterState → Guarded → Result RouterTurn
  unfolding create_placeholder_task route_by_candidate_type within_budget
  after_guards candidate_id candidate s (refused outcome) = do
    task ← create_placeholder_task host audit_id candidate_id audit_snapshot_ref created_at
    ok (record {
      results = record { routing_outcome = held_back outcome; task = task } ∷ [];
      routed = [];
      next = s;
    })
  after_guards candidate_id candidate s (admitted candidate_type snapshot_ref) = do
    (tasks, seen) ←
        route_by_candidate_type host p audit_id snapshot_ref created_at candidate_type candidate
          s.files_seen
    let (rs, (ts, verify_tasks)) = within_budget p tasks 0 s.verify_tasks_this_run
    ok (record {
      results = rs;
      routed = ts;
      next = record s { verify_tasks_this_run = verify_tasks; files_seen = seen };
    })

  -- A candidate of the audit, counted.
  unfoldable pub route_candidate : String → Json → RouterState → Result RouterTurn
  unfolding guard_candidate after_guards
  route_candidate candidate_id candidate s = do
    guarded ←
        guard_candidate p s.candidates_this_audit s.verify_tasks_this_run candidate
          audit_snapshot_ref
    after_guards candidate_id candidate s guarded

  unfoldable pub router_turn : String × Json → RouterState → Result RouterTurn
  unfolding get equals route_candidate
  router_turn (candidate_id, candidate) s = do
    audit ← get "audit_id" candidate
    if equals audit (str audit_id)
        then route_candidate candidate_id candidate
            (record s { candidates_this_audit = suc s.candidates_this_audit })
        else ok (record { results = []; routed = []; next = s })

  unfoldable pub router_loop :
      List (String × Json) → RouterState → Result (List RoutingResult × List AuditTask)
  unfolding router_turn
  router_loop [] s = ok ([], [])
  router_loop (entry ∷ rest) s = do
    turn ← router_turn entry s
    (rs, ts) ← router_loop rest turn.next
    ok (turn.results ++ rs, turn.routed ++ ts)

-- `sum(1 for t in existing_tasks if t.type == "verify_claim")`
unfoldable pub count_verify_tasks : List AuditTask → ℕ
count_verify_tasks [] = 0
count_verify_tasks (t ∷ ts) =
    let rest = count_verify_tasks ts in if is_verify t.task_type then suc rest else rest

abbrev pub routing_results : List EnqueueResult → List RoutingResult
routing_results [] = []
routing_results (r ∷ rs) =
    record { routing_outcome = queued_as r.outcome; task = r.task } ∷ routing_results rs

-- `enqueue_many` at the end, if a task was routed.
unfoldable pub enqueue_routed :
    Host → QueueFile → List RoutingResult × List AuditTask → Result (List RoutingResult × QueueFile)
unfolding enqueue_many
enqueue_routed host file (rs, []) = ok (rs, file)
enqueue_routed host file (rs, t ∷ ts) = do
  (stored, written) ← enqueue_many host (t ∷ ts) file
  ok (rs ++ routing_results stored, written)

abbrev pub run_start : List AuditTask → RouterState
run_start existing = record {
  candidates_this_audit = 0;
  verify_tasks_this_run = count_verify_tasks existing;
  files_seen = [];
}

-- `route_candidates_to_verification`
unfoldable pub route_candidates_to_verification :
    Host
    → CandidateRoutingPolicy
    → String
    → Json
    → Option String
    → Option String
    → QueueFile
    → Result (List RoutingResult × QueueFile)
unfolding list_tasks router_loop sort entry_le entries count_verify_tasks enqueue_routed
route_candidates_to_verification host p audit_id (obj candidates) audit_snapshot_ref created_at
      file =
    do
      existing ←
          list_tasks host
            (record { audit_id = some audit_id; task_type = none; status = some pending }) file
      found ←
          router_loop host p audit_id audit_snapshot_ref created_at
            (sort entry_le (entries candidates)) (run_start existing)
      enqueue_routed host file found
route_candidates_to_verification host p audit_id _ audit_snapshot_ref created_at file =
    err task_queue_error

-- `enqueue_candidate_verification_tasks`, with a policy.
abbrev pub enqueue_candidate_verification_tasks :
    Host
    → AuditPolicy
    → String
    → Json
    → Option String
    → Option String
    → QueueFile
    → Result (List RoutingResult × QueueFile)
enqueue_candidate_verification_tasks host policy =
    route_candidates_to_verification host policy.candidate_routing
