-- ===== src/Examples/Outcomes.antt =====
-- The classification of concrete executions.
use deterministic_audit_runt.Prelude.{◌≡◌, ◌≢◌, ◌↔◌, refl, none, some, true, false}
use deterministic_audit_runt.Outcome.{
  Execution, classify_task_outcome, classify_provider_error, TaskOutcome, is_provider_issue,
  completed_no_events, should_affect_metrics, runtime_failed, provider_throttled, rate_limited,
}
use deterministic_audit_runt.Prelude.Int.{pos}
use deterministic_audit_runt.Outcome.Provider.{advice, is_some}
use deterministic_audit_runt.Outcome.Metrics.{error_is_provider_issue}

abbrev failing : Execution
failing = record {
  task_id = "task_1";
  accepted_events = pos 0;
  rejected_events = pos 0;
  error = some "429 too many requests";
  rejection_chain = none;
  worker_role = none;
  backend_type = none;
  status_code = some 429;
}

abbrev working : Execution
working = record {
  task_id = "task_1";
  accepted_events = pos 3;
  rejected_events = pos 1;
  error = none;
  rejection_chain = none;
  worker_role = none;
  backend_type = none;
  status_code = none;
}

abbrev finished : TaskOutcome
finished = record {
  task_id = "task_1";
  outcome_class = completed_no_events;
  worker_role = none;
  backend_type = none;
  accepted_events = pos 0;
  rejected_events = pos 1;
  rejection_chain = none;
  provider_error = none;
  error_message = none;
  retryable = false;
  retry_delay_seconds = none;
}

error_is_provider_issue_example :
    let o = classify_task_outcome failing in
    let c = classify_provider_error "429 too many requests" (some 429) in
    (is_provider_issue o ≡ true)
    × (should_affect_metrics o ≡ false)
    × (o.outcome_class ≢ runtime_failed)
    × ((o.outcome_class ≡ provider_throttled) ↔ (c.error_type ≡ rate_limited))
    × (o.retry_delay_seconds ≡ advice c.error_type)
    × (o.retryable ≡ is_some (advice c.error_type))
error_is_provider_issue_example = error_is_provider_issue failing "429 too many requests" refl
