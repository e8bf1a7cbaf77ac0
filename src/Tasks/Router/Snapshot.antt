-- ===== src/Tasks/Router/Snapshot.antt =====
-- The outcome no_snapshot_ref of a routing run of runtime/tasks.py.
use deterministic_audit_runt.Prelude.{
  ℕ, String, ◌≡◌, ◌≢◌, inl, inr, Option, none, some, Bool-cases, ◌∙◌, arith, suc, List, [], ◌∷◌,
  All, All-append,
}
use deterministic_audit_runt.Errors.{>>=-eq-ok, ok_inj, ok}
use deterministic_audit_runt.Tasks.Types.{AuditTask, Host, pending}
use deterministic_audit_runt.Tasks.Router.Candidate.{
  create_placeholder_task, truthy_text, RoutingResult, held_back, no_snapshot_ref, Refusal,
}
use deterministic_audit_runt.Tasks.Router.Guards.{refused, guard_candidate, admitted, Guarded}
use deterministic_audit_runt.Policies.{CandidateRoutingPolicy}
use deterministic_audit_runt.Json.{Json, str, get, Fields, obj}
use deterministic_audit_runt.EventStore.Repair.{refused}
use mathlib.Core.Path.{ap, subst}
use deterministic_audit_runt.Json.Canonical.{equals}
use deterministic_audit_runt.Tasks.Router.Run.{
  router_turn, within_budget, router_loop, route_candidate, RouterState, after_guards, RouterTurn,
  enqueue_routed, route_candidates_to_verification, routing_results, run_start,
}
use deterministic_audit_runt.Tasks.Router.Route.{route_by_candidate_type}
use deterministic_audit_runt.Tasks.Router.Refused.{no_placeholder, guard_candidate-no_snapshot}
use deterministic_audit_runt.Tasks.Queue.{
  EnqueueResult, QueueFile, enqueue_many, list_tasks, entry_le, entries,
}
use deterministic_audit_runt.Prelude.Sort.{sort}

-- The result does not say no_snapshot_ref.
abbrev pub HasSnapshot : RoutingResult → Type 0
HasSnapshot r = r.routing_outcome ≢ held_back no_snapshot_ref

module _ (host : Host) (p : CandidateRoutingPolicy) (audit_id : String)
    (audit_snapshot_ref created_at : Option String) where
  refused-HasSnapshot :
      (candidate_id : String) (task : AuditTask) (o : Refusal)
      → (o ≡ no_snapshot_ref → truthy_text audit_snapshot_ref ≡ none)
      → create_placeholder_task host audit_id candidate_id audit_snapshot_ref created_at ≡ ok task
      → HasSnapshot (record { routing_outcome = held_back o; task = task })
  refused-HasSnapshot candidate_id task o absent placed same =
      no_placeholder host audit_id candidate_id audit_snapshot_ref created_at task (absent cc)
        placed

  within_budget-HasSnapshot :
      (ts : List AuditTask) (count n : ℕ) → All HasSnapshot (within_budget p ts count n).0
  unfolding within_budget
  within_budget-HasSnapshot [] count n = tt
  within_budget-HasSnapshot (t ∷ ts) count n = ground (
    arith,
    within_budget-HasSnapshot ts count n,
    within_budget-HasSnapshot ts (suc count) n,
    within_budget-HasSnapshot ts (suc count) (suc n),
  )

  route_candidate-HasSnapshot :
      (candidate_id : String) (candidate : Json) (s : RouterState) (turn : RouterTurn)
      → route_candidate host p audit_id audit_snapshot_ref created_at candidate_id candidate s
        ≡ ok turn
      → All HasSnapshot turn.results
  unfolding route_candidate after_guards
  route_candidate-HasSnapshot candidate_id candidate s turn h =
      let (g, q, h1) =
        >>=-eq-ok
          (guard_candidate p s.candidates_this_audit s.verify_tasks_this_run candidate
            audit_snapshot_ref)
          _ h in
      guarded g q h1
    where
      guarded :
          (g : Guarded)
          → guard_candidate p s.candidates_this_audit s.verify_tasks_this_run candidate
              audit_snapshot_ref
            ≡ ok g
          → after_guards host p audit_id audit_snapshot_ref created_at candidate_id candidate s g
            ≡ ok turn
          → All HasSnapshot turn.results
      guarded (refused o) q h =
          let (task, placed, h1) =
            >>=-eq-ok
              (create_placeholder_task host audit_id candidate_id audit_snapshot_ref created_at) _
              h in
          subst (λ t. All HasSnapshot t.results) (ok_inj h1)
            (
              refused-HasSnapshot candidate_id task o
                  (λ same.
                    guard_candidate-no_snapshot p s.candidates_this_audit s.verify_tasks_this_run
                      candidate audit_snapshot_ref (q ∙ ap (λ o. ok (refused o)) same))
                  placed,
              tt,
            )
      guarded (admitted ty snapshot_ref) q h =
          let ((tasks, seen), _, h1) =
            >>=-eq-ok
              (route_by_candidate_type host p audit_id snapshot_ref created_at ty candidate
                s.files_seen)
              _ h in
          subst (λ t. All HasSnapshot t.results) (ok_inj h1)
            (within_budget-HasSnapshot tasks 0 s.verify_tasks_this_run)

  router_turn-HasSnapshot :
      (entry : String × Json) (s : RouterState) (turn : RouterTurn)
      → router_turn host p audit_id audit_snapshot_ref created_at entry s ≡ ok turn
      → All HasSnapshot turn.results
  unfolding router_turn
  router_turn-HasSnapshot (candidate_id, candidate) s turn h =
      let (audit, _, h1) = >>=-eq-ok (get "audit_id" candidate) _ h in
      elim (Bool-cases (equals audit (str audit_id))) [
        | inl q ↦
            route_candidate-HasSnapshot candidate_id candidate
              (record s { candidates_this_audit = suc s.candidates_this_audit }) turn (rw q at h1)
        | inr q ↦ subst (λ t. All HasSnapshot t.results) (ok_inj (rw q at h1)) tt
      ]

  router_loop-HasSnapshot :
      (entries : List (String × Json)) (s : RouterState) (rs : List RoutingResult)
      (ts : List AuditTask)
      → router_loop host p audit_id audit_snapshot_ref created_at entries s ≡ ok (rs, ts)
      → All HasSnapshot rs
  unfolding router_loop
  router_loop-HasSnapshot [] s rs ts h = subst (λ out. All HasSnapshot out.0) (ok_inj h) tt
  router_loop-HasSnapshot (entry ∷ rest) s rs ts h =
      let (turn, q, h1) =
        >>=-eq-ok (router_turn host p audit_id audit_snapshot_ref created_at entry s) _ h in
      let ((later, more), q1, h2) =
        >>=-eq-ok (router_loop host p audit_id audit_snapshot_ref created_at rest turn.next) _ h1 in
      subst (λ out. All HasSnapshot out.0) (ok_inj h2)
        (All-append HasSnapshot turn.results later (router_turn-HasSnapshot entry s turn q)
          (router_loop-HasSnapshot rest turn.next later more q1))

-- What the queue stored has another outcome.
routing_results-HasSnapshot : (rs : List EnqueueResult) → All HasSnapshot (routing_results rs)
routing_results-HasSnapshot [] = tt
routing_results-HasSnapshot (r ∷ rs) = (λ same. cc, routing_results-HasSnapshot rs)

enqueue_routed-HasSnapshot :
    (host : Host) (file written : QueueFile) (held rs : List RoutingResult) (ts : List AuditTask)
    → All HasSnapshot held
    → enqueue_routed host file (held, ts) ≡ ok (rs, written)
    → All HasSnapshot rs
unfolding enqueue_routed
enqueue_routed-HasSnapshot host file written held rs [] kept h =
    subst (λ out. All HasSnapshot out.0) (ok_inj h) kept
enqueue_routed-HasSnapshot host file written held rs (t ∷ ts) kept h =
    let ((stored, final), _, h1) = >>=-eq-ok (enqueue_many host (t ∷ ts) file) _ h in
    subst (λ out. All HasSnapshot out.0) (ok_inj h1)
      (All-append HasSnapshot held (routing_results stored) kept
        (routing_results-HasSnapshot stored))

-- No result of a routing run that returns has the outcome no_snapshot_ref.
pub route_candidates_to_verification-HasSnapshot :
    (host : Host) (p : CandidateRoutingPolicy) (audit_id : String) (candidates : Fields)
    (audit_snapshot_ref created_at : Option String) (file written : QueueFile)
    (rs : List RoutingResult)
    → route_candidates_to_verification host p audit_id
        (obj candidates)
        audit_snapshot_ref
        created_at
        file
      ≡ ok (rs, written)
    → All HasSnapshot rs
unfolding route_candidates_to_verification
route_candidates_to_verification-HasSnapshot host p audit_id candidates ref created_at file written
      rs h =
    let (existing, _, h1) =
      >>=-eq-ok
        (list_tasks host
          (record { audit_id = some audit_id; task_type = none; status = some pending }) file)
        _ h in
    let ((held, ts), q, h2) =
      >>=-eq-ok
        (router_loop host p audit_id ref created_at (sort entry_le (entries candidates))
          (run_start existing))
        _ h1 in
    enqueue_routed-HasSnapshot host file written held rs ts
      (router_loop-HasSnapshot host p audit_id ref created_at (sort entry_le (entries candidates))
        (run_start existing) held ts q)
      h2
