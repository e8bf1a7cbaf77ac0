-- ===== src/Outcome.antt =====
-- runtime/outcome.py: the classification of provider errors and of task executions. Delays are whole
-- seconds, as the source's constants are. The human-readable `message` of a classification is left
-- out: it depends on the order in which Python iterates over a frozenset.
pub mod Provider
pub mod Metrics
use deterministic_audit_runt.Prelude.{
  ℕ, String, Bool, true, false, not, ◌||◌, Option, none, some, List, [], ◌∷◌, num_eq, if◌then◌else◌,
}
use deterministic_audit_runt.Prelude.Codes.{lower, contains_any}
use deterministic_audit_runt.Prelude.Int.{ltb_ℤ, int_eq, ℤ, pos}
use deterministic_audit_runt.Json.{Json}

pub data OutcomeClass : Type 0 where
  completed_with_events completed_no_events : OutcomeClass
  provider_throttled provider_failed : OutcomeClass
  runtime_failed policy_rejected rejected_contract : OutcomeClass

pub data ProviderErrorType : Type 0 where
  rate_limited timeout service_unavailable authentication_error : ProviderErrorType
  context_overflow budget_exhausted unknown : ProviderErrorType

abbrev pub rate_limit_keywords : List String
rate_limit_keywords =
    "rate limit" ∷ "ratelimit" ∷ "rate-limit" ∷ "429" ∷ "too many requests" ∷ "requests per minute"
    ∷ "rpm" ∷ "tokens per minute" ∷ "tpm" ∷ "throttl" ∷ "quota exceeded" ∷ "usage limit"
    ∷ "limit exceeded" ∷ []

abbrev pub service_unavailable_keywords : List String
service_unavailable_keywords =
    "service unavailable" ∷ "503" ∷ "502" ∷ "bad gateway" ∷ "gateway timeout" ∷ "internal error"
    ∷ "internal server error" ∷ "500" ∷ "overloaded" ∷ "capacity" ∷ []

abbrev pub auth_error_keywords : List String
auth_error_keywords =
    "authentication" ∷ "unauthorized" ∷ "401" ∷ "403" ∷ "forbidden" ∷ "api key" ∷ "invalid key"
    ∷ "expired" ∷ "permission" ∷ []

abbrev pub context_overflow_keywords : List String
context_overflow_keywords =
    "context length" ∷ "context window" ∷ "token limit" ∷ "max tokens" ∷ "too long"
    ∷ "context exceeded" ∷ []

pub record ProviderErrorClassification : Type 0 where
  pub error_type : ProviderErrorType
  pub is_retryable : Bool
  pub is_provider_issue : Bool
  pub suggested_delay_seconds : Option ℕ
  pub raw_error : String

abbrev pub classified : ProviderErrorType → Bool → Option ℕ → String → ProviderErrorClassification
classified t r d e = record {
  error_type = t;
  is_retryable = r;
  is_provider_issue = true;
  suggested_delay_seconds = d;
  raw_error = e;
}

-- `status_code in codes`
abbrev pub is_status : Option ℕ → List ℕ → Bool
is_status none cs = false
is_status (some s) [] = false
is_status (some s) (c ∷ cs) = num_eq s c || is_status (some s) cs

-- The part of `classify_provider_error` that reads the text.
unfoldable pub classify_text : String → ProviderErrorClassification
classify_text error =
    let text = lower error in
    if contains_any rate_limit_keywords text
    then classified rate_limited true (some 60) error
    else if contains_any service_unavailable_keywords text
    then classified service_unavailable true (some 30) error
    else if contains_any auth_error_keywords text
    then classified authentication_error false none error
    else if contains_any context_overflow_keywords text
    then classified context_overflow false none error
    else if contains_any ("timeout" ∷ []) text
    then classified timeout true (some 10) error
    else classified unknown false none error

unfoldable pub classify_provider_error : String → Option ℕ → ProviderErrorClassification
unfolding classify_text
classify_provider_error error status_code =
    if is_status status_code (429 ∷ [])
    then classified rate_limited true (some 60) error
    else if is_status status_code (502 ∷ 503 ∷ 504 ∷ [])
    then classified service_unavailable true (some 30) error
    else if is_status status_code (401 ∷ 403 ∷ [])
    then classified authentication_error false none error
    else classify_text error

pub record TaskOutcome : Type 0 where
  pub task_id : String
  pub outcome_class : OutcomeClass
  pub worker_role : Option String
  pub backend_type : Option String
  pub accepted_events : ℤ
  pub rejected_events : ℤ
  pub rejection_chain : Option Json
  pub provider_error : Option ProviderErrorClassification
  pub error_message : Option String
  pub retryable : Bool
  pub retry_delay_seconds : Option ℕ

abbrev pub is_success : TaskOutcome → Bool
is_success o = elim o.outcome_class [
  | completed_with_events ↦ true
  | completed_no_events ↦ true
  | _ ↦ false
]

abbrev pub is_provider_issue : TaskOutcome → Bool
is_provider_issue o = elim o.outcome_class [
  | provider_throttled ↦ true
  | provider_failed ↦ true
  | _ ↦ false
]

abbrev pub is_task_failure : TaskOutcome → Bool
is_task_failure o = elim o.outcome_class [
  | runtime_failed ↦ true
  | policy_rejected ↦ true
  | rejected_contract ↦ true
  | _ ↦ false
]

abbrev pub should_affect_metrics : TaskOutcome → Bool
should_affect_metrics o = not (is_provider_issue o)

-- The keyword arguments of `classify_task_outcome`.
pub record Execution : Type 0 where
  pub task_id : String
  pub accepted_events : ℤ
  pub rejected_events : ℤ
  pub error : Option String
  pub rejection_chain : Option Json
  pub worker_role : Option String
  pub backend_type : Option String
  pub status_code : Option ℕ

abbrev pub is_rate_limited : ProviderErrorType → Bool
is_rate_limited rate_limited = true
is_rate_limited _ = false

-- The cases with an error.
unfoldable pub failed_outcome : Execution → String → ProviderErrorClassification → TaskOutcome
failed_outcome x error c =
    if c.is_provider_issue
    then record {
      task_id = x.task_id;
      outcome_class = if is_rate_limited c.error_type then provider_throttled else provider_failed;
      worker_role = x.worker_role;
      backend_type = x.backend_type;
      accepted_events = x.accepted_events;
      rejected_events = x.rejected_events;
      rejection_chain = none;
      provider_error = some c;
      error_message = some error;
      retryable = c.is_retryable;
      retry_delay_seconds = c.suggested_delay_seconds;
    }
    else record {
      task_id = x.task_id;
      outcome_class = runtime_failed;
      worker_role = x.worker_role;
      backend_type = x.backend_type;
      accepted_events = x.accepted_events;
      rejected_events = x.rejected_events;
      rejection_chain = none;
      provider_error = none;
      error_message = some error;
      retryable = false;
      retry_delay_seconds = none;
    }

-- An outcome with no error in it.
abbrev quiet : Execution → OutcomeClass → ℤ → ℤ → Option Json → Option String → TaskOutcome
quiet x c accepted rejected chain message = record {
  task_id = x.task_id;
  outcome_class = c;
  worker_role = x.worker_role;
  backend_type = x.backend_type;
  accepted_events = accepted;
  rejected_events = rejected;
  rejection_chain = chain;
  provider_error = none;
  error_message = message;
  retryable = false;
  retry_delay_seconds = none;
}

unfoldable pub classify_task_outcome : Execution → TaskOutcome
unfolding failed_outcome classify_provider_error
classify_task_outcome x = elim x.error [
  | some error ↦ failed_outcome x error (classify_provider_error error x.status_code)
  | none ↦
      if ltb_ℤ (pos 0) x.accepted_events
      then quiet x completed_with_events x.accepted_events x.rejected_events none none
      else if int_eq x.accepted_events (pos 0)
      then quiet x completed_no_events (pos 0) x.rejected_events x.rejection_chain none
      else quiet x runtime_failed (pos 0) (pos 0) none (some "Unknown outcome")
]

unfoldable pub is_throttle_error : String → Bool
unfolding classify_provider_error
is_throttle_error error = is_rate_limited (classify_provider_error error none).error_type

unfoldable pub should_stop_claiming_on_error : String → Bool
unfolding classify_provider_error
should_stop_claiming_on_error error = elim (classify_provider_error error none).error_type [
  | rate_limited ↦ true
  | budget_exhausted ↦ true
  | authentication_error ↦ true
  | _ ↦ false
]
