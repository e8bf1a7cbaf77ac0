-- ===== src/Tasks/Router/Stored.antt =====
-- What enqueue_many of runtime/tasks.py adds for a routing run.
use deterministic_audit_runt.Prelude.{
  suc, ◌+◌, ◌≤◌, max, String, ◌≡◌, refl, ◌∙◌, inl, inr, Option, none, some, List, [], ◌∷◌, arith,
  if◌then◌else◌,
}
use mathlib.Core.Path.{ap, subst}
use deterministic_audit_runt.Errors.{>>=-eq-ok, ok_inj, ok}
use deterministic_audit_runt.Tasks.Router.Run.{
  route_candidates_to_verification, enqueue_routed, count_verify_tasks, routing_results, is_verify,
  router_loop, run_start,
}
use deterministic_audit_runt.Tasks.Enqueued.{OneAnswer, enqueue_one-Answer}
use deterministic_audit_runt.Prelude.Sort.{insert, sort}
use deterministic_audit_runt.Tasks.Queue.{
  enqueue_loop, enqueue_many, QueueFile, EnqueueResult, load_tasks, enqueue_one, list_tasks,
  entry_le, entries,
}
use deterministic_audit_runt.Tasks.Router.Limit.{
  added_verify, added_verify-append, router_loop-StaysBelow,
}
use deterministic_audit_runt.Tasks.Types.{Host, AuditTask, pending}
use deterministic_audit_runt.Policies.{CandidateRoutingPolicy}
use deterministic_audit_runt.Tasks.Keys.{task_le}
use deterministic_audit_runt.Json.{obj, Fields}
use deterministic_audit_runt.Tasks.Router.Candidate.{RoutingResult}
use deterministic_audit_runt.Tasks.Planner.Budget.{limit_of}

count_verify_tasks-insert :
    (t : AuditTask) (ts : List AuditTask)
    → count_verify_tasks (insert task_le t ts) ≡ count_verify_tasks (t ∷ ts)
unfolding insert count_verify_tasks
count_verify_tasks-insert t [] = refl
count_verify_tasks-insert t (u ∷ us) = ground (arith, count_verify_tasks-insert t us)

count_verify_tasks-sort :
    (ts : List AuditTask) → count_verify_tasks (sort task_le ts) ≡ count_verify_tasks ts
unfolding sort count_verify_tasks
count_verify_tasks-sort [] = refl
count_verify_tasks-sort (t ∷ ts) =
    count_verify_tasks-insert t (sort task_le ts)
    ∙ ap (λ n. if is_verify t.task_type then suc n else n) (count_verify_tasks-sort ts)

-- One task adds at most itself.
one-le :
    (t : AuditTask) (stored grown : List AuditTask) (r : EnqueueResult)
    → OneAnswer t stored r grown
    → added_verify (routing_results (r ∷ [])) ≤ count_verify_tasks (t ∷ [])
unfolding OneAnswer added_verify count_verify_tasks
one-le t stored grown r (inl (_, e, _)) = rw e (ground arith)
one-le t stored grown r (inr (u, _, _, e, _)) = rw e (ground arith)

enqueue_loop-le :
    (ts stored final : List AuditTask) (rs : List EnqueueResult)
    → enqueue_loop ts stored ≡ ok (rs, final)
    → added_verify (routing_results rs) ≤ count_verify_tasks ts
unfolding enqueue_loop added_verify count_verify_tasks
enqueue_loop-le [] stored final rs h =
    subst (λ out. added_verify (routing_results out.0) ≤ 0) (ok_inj h) (ground arith)
enqueue_loop-le (t ∷ ts) stored final rs h =
    let ((r, grown), q, h1) = >>=-eq-ok (enqueue_one t stored) _ h in
    let ((later, last), q1, h2) = >>=-eq-ok (enqueue_loop ts grown) _ h1 in
    subst (λ out. added_verify (routing_results out.0) ≤ count_verify_tasks (t ∷ ts)) (ok_inj h2)
      (ground (
        arith,
        one-le t stored grown r (enqueue_one-Answer t stored r grown q),
        enqueue_loop-le ts grown last later q1,
      ))

pub enqueue_many-le :
    (host : Host) (ts : List AuditTask) (file written : QueueFile) (rs : List EnqueueResult)
    → enqueue_many host ts file ≡ ok (rs, written)
    → added_verify (routing_results rs) ≤ count_verify_tasks ts
unfolding enqueue_many
enqueue_many-le host ts file written rs h =
    let (stored, _, h1) = >>=-eq-ok (load_tasks host file) _ h in
    let ((found, final), q, h2) = >>=-eq-ok (enqueue_loop (sort task_le ts) stored) _ h1 in
    subst (λ out. added_verify (routing_results out.0) ≤ count_verify_tasks ts) (ok_inj h2)
      (subst (λ n. added_verify (routing_results found) ≤ n) (count_verify_tasks-sort ts)
        (enqueue_loop-le (sort task_le ts) stored final found q))

-- The tasks of a run, behind `enqueue_many`.
enqueue_routed-le :
    (host : Host) (file written : QueueFile) (held rs : List RoutingResult) (ts : List AuditTask)
    → added_verify held ≡ 0
    → enqueue_routed host file (held, ts) ≡ ok (rs, written)
    → added_verify rs ≤ count_verify_tasks ts
unfolding enqueue_routed
enqueue_routed-le host file written held rs [] none_added h =
    subst (λ out. added_verify out.0 ≤ count_verify_tasks []) (ok_inj h) (ground arith)
enqueue_routed-le host file written held rs (t ∷ ts) none_added h =
    let ((stored, final), q, h1) = >>=-eq-ok (enqueue_many host (t ∷ ts) file) _ h in
    subst (λ out. added_verify out.0 ≤ count_verify_tasks (t ∷ ts)) (ok_inj h1)
      (ground (
        arith,
        enqueue_many-le host (t ∷ ts) file final stored q,
        added_verify-append held (routing_results stored),
      ))

-- When a routing run returns, the verify_claim tasks that it added to the queue, together with the
-- pending verify_claim tasks of the audit that the queue listed before, are at most
-- max_verify_tasks_per_run, or none was added where those are already more. A negative limit counts
-- as 0.
pub route_candidates_to_verification-le :
    (host : Host) (p : CandidateRoutingPolicy) (audit_id : String) (candidates : Fields)
    (audit_snapshot_ref created_at : Option String) (file written : QueueFile)
    (rs : List RoutingResult)
    → route_candidates_to_verification host p audit_id
        (obj candidates)
        audit_snapshot_ref
        created_at
        file
      ≡ ok (rs, written)
    → (existing : List AuditTask) × (list_tasks host
          (record { audit_id = some audit_id; task_type = none; status = some pending })
          file
        ≡ ok existing)
      × (added_verify rs + count_verify_tasks existing
          ≤ max (count_verify_tasks existing) (limit_of p.max_verify_tasks_per_run))
unfolding route_candidates_to_verification
route_candidates_to_verification-le host p audit_id candidates ref created_at file written rs h =
    let (existing, listed, h1) =
      >>=-eq-ok
        (list_tasks host
          (record { audit_id = some audit_id; task_type = none; status = some pending }) file)
        _ h in
    let ((held, ts), q, h2) =
      >>=-eq-ok
        (router_loop host p audit_id ref created_at (sort entry_le (entries candidates))
          (run_start existing))
        _ h1 in
    let (nothing, below) =
      router_loop-StaysBelow host p audit_id ref created_at (sort entry_le (entries candidates))
        (run_start existing) held ts q in
    (
      existing,
      listed,
      ground (arith, below, enqueue_routed-le host file written held rs ts nothing h2),
    )
