-- ===== src/Tasks/Router/Limit.antt =====
-- The limit of verify_claim tasks of a routing run of runtime/tasks.py.
use deterministic_audit_runt.Prelude.{
  ℕ, suc, ◌+◌, ◌≤◌, max, ◌≡◌, List, [], ◌∷◌, arith, if◌then◌else◌, String, inl, inr, Bool, false,
  Option, ◌++◌, Bool-cases,
}
use deterministic_audit_runt.Policies.{CandidateRoutingPolicy}
use deterministic_audit_runt.Tasks.Router.Candidate.{
  RoutingResult, RoutingOutcome, queued_as, create_placeholder_task,
}
use deterministic_audit_runt.Tasks.Router.Run.{
  within_budget, count_verify_tasks, router_turn, after_guards, router_loop, route_candidate,
  RouterState, is_verify, RouterTurn,
}
use deterministic_audit_runt.Tasks.Types.{AuditTask, Host, TaskType}
use deterministic_audit_runt.Tasks.Queue.{enqueued}
use deterministic_audit_runt.Tasks.Planner.Budget.{limit_of, at_limit-lt}
use deterministic_audit_runt.Errors.{>>=-eq-ok, ok_inj, ok}
use mathlib.Core.Path.{subst}
use deterministic_audit_runt.Json.{Json, get, str}
use deterministic_audit_runt.Tasks.Router.Guards.{Guarded, refused, admitted, guard_candidate}
use deterministic_audit_runt.Json.Canonical.{equals}
use deterministic_audit_runt.Tasks.Router.Route.{route_by_candidate_type}

abbrev pub is_added_verify : RoutingOutcome → TaskType → Bool
is_added_verify (queued_as enqueued) ty = is_verify ty
is_added_verify _ ty = false

-- How many of the results are verify_claim tasks that were added to the queue.
unfoldable pub added_verify : List RoutingResult → ℕ
added_verify [] = 0
added_verify (r ∷ rs) =
    let rest = added_verify rs in
    if is_added_verify r.routing_outcome r.task.task_type then suc rest else rest

-- What a part of a run makes of a count of verify_claim tasks.
abbrev pub StaysBelow :
    CandidateRoutingPolicy → ℕ → List RoutingResult → List AuditTask → ℕ → Type 0
StaysBelow p before rs routed final =
    (added_verify rs ≡ 0)
    × (final ≡ count_verify_tasks routed + before)
    × (final ≤ max before (limit_of p.max_verify_tasks_per_run))

within_budget-StaysBelow :
    (p : CandidateRoutingPolicy) (ts : List AuditTask) (count n : ℕ)
    → StaysBelow p n
        (within_budget p ts count n).0
        (within_budget p ts count n).1.0
        (within_budget p ts count n).1.1
unfolding within_budget count_verify_tasks added_verify
within_budget-StaysBelow p [] count n = ground arith
within_budget-StaysBelow p (t ∷ ts) count n = ground (
  arith,
  at_limit-lt n p.max_verify_tasks_per_run,
  within_budget-StaysBelow p ts count n,
  within_budget-StaysBelow p ts (suc count) n,
  within_budget-StaysBelow p ts (suc count) (suc n),
)

pub added_verify-append :
    (rs ss : List RoutingResult) → added_verify (rs ++ ss) ≡ added_verify rs + added_verify ss
unfolding added_verify
added_verify-append [] ss = omega arith
added_verify-append (r ∷ rs) ss = ground (arith, added_verify-append rs ss)

count_verify_tasks-append :
    (ts us : List AuditTask)
    → count_verify_tasks (ts ++ us) ≡ count_verify_tasks ts + count_verify_tasks us
unfolding count_verify_tasks
count_verify_tasks-append [] us = omega arith
count_verify_tasks-append (t ∷ ts) us = ground (arith, count_verify_tasks-append ts us)

-- A candidate whose turn ends.
module _ (host : Host) (p : CandidateRoutingPolicy) (audit_id : String)
    (audit_snapshot_ref created_at : Option String) where
  after_guards-StaysBelow :
      (candidate_id : String) (candidate : Json) (s : RouterState) (g : Guarded) (turn : RouterTurn)
      → after_guards host p audit_id audit_snapshot_ref created_at candidate_id candidate s g
        ≡ ok turn
      → StaysBelow p s.verify_tasks_this_run turn.results turn.routed
          turn.next.verify_tasks_this_run
  unfolding after_guards added_verify count_verify_tasks
  after_guards-StaysBelow candidate_id candidate s (refused outcome) turn h =
      let (task, _, h1) =
        >>=-eq-ok (create_placeholder_task host audit_id candidate_id audit_snapshot_ref created_at)
          _ h in
      subst
        (λ t. StaysBelow p s.verify_tasks_this_run t.results t.routed t.next.verify_tasks_this_run)
        (ok_inj h1) (ground arith)
  after_guards-StaysBelow candidate_id candidate s (admitted ty snapshot_ref) turn h =
      let ((tasks, seen), _, h1) =
        >>=-eq-ok
          (route_by_candidate_type host p audit_id snapshot_ref created_at ty candidate
            s.files_seen)
          _ h in
      subst
        (λ t. StaysBelow p s.verify_tasks_this_run t.results t.routed t.next.verify_tasks_this_run)
        (ok_inj h1) (within_budget-StaysBelow p tasks 0 s.verify_tasks_this_run)

  router_turn-StaysBelow :
      (entry : String × Json) (s : RouterState) (turn : RouterTurn)
      → router_turn host p audit_id audit_snapshot_ref created_at entry s ≡ ok turn
      → StaysBelow p s.verify_tasks_this_run turn.results turn.routed
          turn.next.verify_tasks_this_run
  unfolding router_turn route_candidate added_verify count_verify_tasks
  router_turn-StaysBelow (candidate_id, candidate) s turn h =
      let (audit, _, h1) = >>=-eq-ok (get "audit_id" candidate) _ h in
      elim (Bool-cases (equals audit (str audit_id))) [
        | inl q ↦
            let counted = record s { candidates_this_audit = suc s.candidates_this_audit } in
            let (g, _, h2) =
              >>=-eq-ok
                (guard_candidate p counted.candidates_this_audit counted.verify_tasks_this_run
                  candidate audit_snapshot_ref)
                _ (rw q at h1) in
            after_guards-StaysBelow candidate_id candidate counted g turn h2
        | inr q ↦
            subst
              (λ t.
                StaysBelow p s.verify_tasks_this_run t.results t.routed
                  t.next.verify_tasks_this_run)
              (ok_inj (rw q at h1)) (ground arith)
      ]

  pub router_loop-StaysBelow :
      (entries : List (String × Json)) (s : RouterState) (rs : List RoutingResult)
      (ts : List AuditTask)
      → router_loop host p audit_id audit_snapshot_ref created_at entries s ≡ ok (rs, ts)
      → (added_verify rs ≡ 0)
        × (count_verify_tasks ts + s.verify_tasks_this_run
            ≤ max s.verify_tasks_this_run (limit_of p.max_verify_tasks_per_run))
  unfolding router_loop added_verify count_verify_tasks
  router_loop-StaysBelow [] s rs ts h =
      subst
        (λ out.
          (added_verify out.0 ≡ 0)
          × (count_verify_tasks out.1 + s.verify_tasks_this_run
              ≤ max s.verify_tasks_this_run (limit_of p.max_verify_tasks_per_run)))
        (ok_inj h) (ground arith)
  router_loop-StaysBelow (entry ∷ rest) s rs ts h =
      let (turn, q, h1) =
        >>=-eq-ok (router_turn host p audit_id audit_snapshot_ref created_at entry s) _ h in
      let ((later, more), q1, h2) =
        >>=-eq-ok (router_loop host p audit_id audit_snapshot_ref created_at rest turn.next) _ h1 in
      subst
        (λ out.
          (added_verify out.0 ≡ 0)
          × (count_verify_tasks out.1 + s.verify_tasks_this_run
              ≤ max s.verify_tasks_this_run (limit_of p.max_verify_tasks_per_run)))
        (ok_inj h2)
        (ground (
          arith,
          router_turn-StaysBelow entry s turn q,
          router_loop-StaysBelow rest turn.next later more q1,
          added_verify-append turn.results later,
          count_verify_tasks-append turn.routed more,
        ))
