-- ===== src/Examples/Plan.antt =====
-- A planning run and a routing run, on which the theorems about TaskPlanner and CandidateRouter of
use deterministic_audit_runt.Prelude.{
  String, ◌≡◌, refl, true, false, none, some, List, [], ◌∷◌, ◌+◌, ◌≤◌, max, All,
}
use deterministic_audit_runt.Errors.{ok}
use deterministic_audit_runt.Prelude.Int.{pos}
use deterministic_audit_runt.Policies.{AuditPolicy, CandidateRoutingPolicy}
use deterministic_audit_runt.Json.{Json, obj, field, end, arr, Fields, cons, nil}
use deterministic_audit_runt.Tasks.Planner.{
  enqueue_follow_up_tasks, PlanResult, Shown, stored_as, deferred_guardrail, values_of,
}
use deterministic_audit_runt.Tasks.Types.{AuditTask, fresh_task, verify_claim, pending}
use deterministic_audit_runt.Tasks.Queue.{list_tasks, missing, enqueued, QueueFile, write_tasks}
use deterministic_audit_runt.Examples.Queue.{two_tasks, host, queue_file}
use deterministic_audit_runt.Examples.Data.{text_field}
use deterministic_audit_runt.Tasks.Planner.Bounds.{KeepsLimits, enqueue_follow_up_tasks-KeepsLimits}
use deterministic_audit_runt.Tasks.Router.{queued_as}
use deterministic_audit_runt.Tasks.Router.{
  RoutingSummary, route_candidates_to_verification, get_routing_summary, RoutingResult, held_back,
  empty_summary, deferred_run_limit, count_verify_tasks,
}
use deterministic_audit_runt.Tasks.Router.Counts.{
  Adds, get_routing_summary-Adds, of_audit, no_longer_proposed,
}
use deterministic_audit_runt.Tasks.Router.Snapshot.{
  HasSnapshot, route_candidates_to_verification-HasSnapshot,
}
use deterministic_audit_runt.Tasks.Router.Limit.{added_verify}
use deterministic_audit_runt.Tasks.Planner.Budget.{limit_of}
use deterministic_audit_runt.Tasks.Router.Stored.{route_candidates_to_verification-le}

-- runtime/tasks.py are applied.
abbrev routing_policy : CandidateRoutingPolicy
routing_policy = record {
  max_candidates_per_audit = pos 10;
  max_verify_tasks_per_run = pos 2;
  max_module_scan_per_cross_file = pos 3;
  max_total_tasks_per_candidate = pos 3;
  defer_low_confidence = true;
  suppress_near_duplicate_files = true;
  route_risk_candidates = true;
  route_policy_candidates = true;
  route_cross_file_correlations = true;
  route_verification_targets = true;
}

abbrev pub small_policy : AuditPolicy
small_policy = record {
  profile_name = "low_noise";
  description = "One claim at a time.";
  question_emission = record {
    emit_on_ambiguity = true;
    emit_on_security_concern = true;
    emit_on_unclear_intent = false;
    suppress_near_duplicates = true;
    max_questions_per_slice = pos 3;
  };
  task_expansion = record {
    verify_claim_per_observation = true;
    compose_issue_for_verified = true;
    defer_on_budget_soft = false;
  };
  issue_composition = record {
    require_rule_binding_for_severity = true;
    include_low_confidence = false;
    min_evidence_class = "derived_structural_fact";
  };
  verify_claim_budget = record {
    max_per_audit = pos 5;
    max_per_observation = pos 1;
    max_follow_up_per_iteration = pos 1;
  };
  compose_issue_budget = record {
    max_per_audit = pos 5;
    max_per_source_path = pos 1;
    allow_inferred_evidence = false;
  };
  candidate_routing = routing_policy;
}

abbrev pub shown_as_text : Shown
shown_as_text = record { shown = λ v. "" }

abbrev proposed_observation : String → Json
proposed_observation id =
    obj (text_field "id" id (text_field "audit_id" "audit_1" (text_field "status" "proposed" end)))

-- Two claims wait, and one may be added.
abbrev two_claims : Json
two_claims = obj (
    field "audit" (obj (text_field "id" "audit_1" (text_field "current_snapshot_ref" "snap_1" end)))
      (field "observations"
        (obj (
          field "obs_1" (proposed_observation "obs_1")
            (field "obs_2" (proposed_observation "obs_2") end)))
        (field "issues" (obj end) end)))

abbrev claim_of : String → AuditTask
claim_of id =
    fresh_task host "audit_1" verify_claim
      (record { kind = "observation"; value = id; snapshot_ref = "snap_1"; line_range = none })
      "2024-05-01T10:00:00Z"

abbrev planned : List PlanResult
planned =
    record { plan_outcome = stored_as enqueued; task = claim_of "obs_1" }
    ∷ record { plan_outcome = deferred_guardrail; task = claim_of "obs_2" }
    ∷ []

one_is_planned :
    (enqueue_follow_up_tasks host shown_as_text small_policy "audit_1"
      (some two_claims)
      none
      missing
      queue_file).0
    ≡ ok planned
unfolding enqueue_follow_up_tasks
one_is_planned = refl

enqueue_follow_up_tasks-KeepsLimits_example :
    (existing : List AuditTask) × (list_tasks host
        (record { audit_id = some "audit_1"; task_type = none; status = none })
        queue_file
      ≡ ok existing)
    × KeepsLimits small_policy existing planned
enqueue_follow_up_tasks-KeepsLimits_example =
    enqueue_follow_up_tasks-KeepsLimits host shown_as_text small_policy "audit_1" (some two_claims)
      none missing queue_file planned one_is_planned

abbrev risk : String → String → Json
risk id path = obj (
    text_field "id" id (
      text_field "audit_id" "audit_1" (
        text_field "status" "proposed" (
          text_field "candidate_type" "risk_candidate" (
            text_field "confidence" "high" (
              field "supporting_evidence_refs"
                (arr (
                  cons (obj (text_field "file_path" path (text_field "snapshot_ref" "snap_1" end)))
                    nil))
                end))))))

-- The queue has a verify_claim task that waits, so that one more may be added.
abbrev two_risks : Fields
two_risks =
    field "cand_1" (risk "cand_1" "src/x.py") (field "cand_2" (risk "cand_2" "src/y.py") end)

abbrev claim_on : String → AuditTask
claim_on path =
    fresh_task host "audit_1" verify_claim
      (record { kind = "path"; value = path; snapshot_ref = "snap_1"; line_range = none })
      "2024-05-01T10:00:00Z"

abbrev placeholder_2 : AuditTask
placeholder_2 = record (claim_on "") {
  id = "task_placeholder_cand_2";
  target = record {
    kind = "candidate";
    value = "cand_2";
    snapshot_ref = "snap_1";
    line_range = none;
  };
}

abbrev routed_results : List RoutingResult
routed_results =
    record { routing_outcome = held_back deferred_run_limit; task = placeholder_2 }
    ∷ record { routing_outcome = queued_as enqueued; task = claim_on "src/x.py" }
    ∷ []

abbrev routed_file : QueueFile
routed_file = write_tasks (claim_on "src/x.py" ∷ two_tasks)

one_is_routed :
    route_candidates_to_verification host routing_policy "audit_1"
      (obj two_risks)
      (some "snap_1")
      none
      queue_file
    ≡ ok (routed_results, routed_file)
unfolding route_candidates_to_verification
one_is_routed = refl

route_candidates_to_verification-le_example :
    (existing : List AuditTask) × (list_tasks host
        (record { audit_id = some "audit_1"; task_type = none; status = some pending })
        queue_file
      ≡ ok existing)
    × (added_verify routed_results + count_verify_tasks existing
        ≤ max (count_verify_tasks existing) (limit_of routing_policy.max_verify_tasks_per_run))
route_candidates_to_verification-le_example =
    route_candidates_to_verification-le host routing_policy "audit_1" two_risks (some "snap_1") none
      queue_file routed_file routed_results one_is_routed

route_candidates_to_verification-HasSnapshot_example : All HasSnapshot routed_results
route_candidates_to_verification-HasSnapshot_example =
    route_candidates_to_verification-HasSnapshot host routing_policy "audit_1" two_risks
      (some "snap_1") none queue_file routed_file routed_results one_is_routed

abbrev two_summary : RoutingSummary
two_summary = record empty_summary { total_candidates = 2; routed_to_verify = 2 }

two_are_counted : get_routing_summary "audit_1" (obj two_risks) ≡ ok two_summary
unfolding get_routing_summary
two_are_counted = refl

get_routing_summary-Adds_example :
    Adds two_summary
    × (two_summary.total_candidates ≡ of_audit "audit_1" (values_of two_risks))
    × (two_summary.already_processed ≡ no_longer_proposed "audit_1" (values_of two_risks))
get_routing_summary-Adds_example =
    get_routing_summary-Adds "audit_1" two_risks two_summary two_are_counted
