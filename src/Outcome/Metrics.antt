-- ===== src/Outcome/Metrics.antt =====
-- Which outcomes count for the success rate, and what an execution is classified as.
use deterministic_audit_runt.Prelude.{
  ℕ, String, ◌≡◌, ◌≢◌, ◌↔◌, ◌⊎◌, true, false, none, some, arith, num_eq, if◌then◌else◌,
}
use deterministic_audit_runt.Outcome.{
  classify_provider_error, is_success, is_provider_issue, is_task_failure, should_affect_metrics,
  failed_outcome, classify_task_outcome, completed_with_events, completed_no_events,
  provider_throttled, runtime_failed, rate_limited, ProviderErrorClassification, TaskOutcome,
  Execution,
}
use deterministic_audit_runt.Prelude.Int.{pos}
use deterministic_audit_runt.Outcome.Provider.{
  advice, IsAdvised, classify_provider_error_sound, is_some,
}

-- An outcome is a success, a provider issue or a task failure, and only one of these; it counts for
-- the metrics unless it is a provider issue.
pub outcome_trichotomy :
    (o : TaskOutcome)
    → (is_success o ≡ true)
        × (is_provider_issue o ≡ false)
        × (is_task_failure o ≡ false)
        × (should_affect_metrics o ≡ true)
      ⊎ (is_success o ≡ false)
        × (is_provider_issue o ≡ true)
        × (is_task_failure o ≡ false)
        × (should_affect_metrics o ≡ false)
      ⊎ (is_success o ≡ false)
        × (is_provider_issue o ≡ false)
        × (is_task_failure o ≡ true)
        × (should_affect_metrics o ≡ true)
outcome_trichotomy o = ground arith

failed_outcome_sound :
    (x : Execution) (error : String) (c : ProviderErrorClassification)
    → IsAdvised error c
    → let o = failed_outcome x error c in
      (is_provider_issue o ≡ true)
      × (should_affect_metrics o ≡ false)
      × (o.outcome_class ≢ runtime_failed)
      × ((o.outcome_class ≡ provider_throttled) ↔ (c.error_type ≡ rate_limited))
      × (o.retry_delay_seconds ≡ advice c.error_type)
      × (o.retryable ≡ is_some (advice c.error_type))
unfolding failed_outcome
failed_outcome_sound x error c h = ground arith

-- An execution that ended with an error, of whatever kind, is a provider issue: it never counts for
-- the metrics and is never a runtime failure. It is throttled exactly when the error is classified
-- as rate limited, and it may be retried exactly when a delay is suggested.
pub error_is_provider_issue :
    (x : Execution) (error : String)
    → x.error ≡ some error
    → let o = classify_task_outcome x in
      (is_provider_issue o ≡ true)
      × (should_affect_metrics o ≡ false)
      × (o.outcome_class ≢ runtime_failed)
      × ((o.outcome_class ≡ provider_throttled)
          ↔ ((classify_provider_error error x.status_code).error_type ≡ rate_limited))
      × (o.retry_delay_seconds ≡ advice (classify_provider_error error x.status_code).error_type)
      × (o.retryable ≡ is_some (advice (classify_provider_error error x.status_code).error_type))
unfolding classify_task_outcome
error_is_provider_issue x error h =
    rw (h, classify_task_outcome)
      (failed_outcome_sound x error (classify_provider_error error x.status_code)
        (classify_provider_error_sound error x.status_code))

-- Without an error the class is decided by the number of accepted events, and nothing is retried.
pub quiet_outcome :
    (x : Execution) (n : ℕ)
    → x.error ≡ none
    → x.accepted_events ≡ pos n
    → let o = classify_task_outcome x in
      (is_success o ≡ true)
      × (o.outcome_class ≡ (if num_eq n 0 then completed_no_events else completed_with_events))
      × (o.accepted_events ≡ pos n)
      × (o.rejected_events ≡ x.rejected_events)
      × (o.rejection_chain ≡ (if num_eq n 0 then x.rejection_chain else none))
      × (o.retryable ≡ false)
unfolding classify_task_outcome
quiet_outcome x n h k = ground arith
