-- ===== src/Outcome/Provider.antt =====
-- What the classification of provider errors can answer.
use deterministic_audit_runt.Prelude.{
  ℕ, String, ◌≡◌, refl, ◌≢◌, Bool, true, false, Option, none, some, if◌then◌else◌,
}
use deterministic_audit_runt.Outcome.{
  classified, classify_text, classify_provider_error, ProviderErrorType, rate_limited, timeout,
  service_unavailable, authentication_error, context_overflow, budget_exhausted, unknown,
  ProviderErrorClassification,
}

-- The retry advice that goes with each type of error.
abbrev pub advice : ProviderErrorType → Option ℕ
advice rate_limited = some 60
advice service_unavailable = some 30
advice timeout = some 10
advice _ = none

abbrev pub is_some : Option ℕ → Bool
is_some none = false
is_some (some n) = true

abbrev pub IsAdvised : String → ProviderErrorClassification → Type 0
IsAdvised error c =
    (c.is_provider_issue ≡ true)
    × (c.suggested_delay_seconds ≡ advice c.error_type)
    × (c.is_retryable ≡ is_some (advice c.error_type))
    × (c.error_type ≢ budget_exhausted)
    × (c.raw_error ≡ error)

module _ (error : String) where
  IsAdvised-classified :
      (t : ProviderErrorType)
      → t ≢ budget_exhausted
      → IsAdvised error (classified t (is_some (advice t)) (advice t) error)
  IsAdvised-classified t h = (refl, refl, refl, h, refl)

  IsAdvised-if :
      (b : Bool) (c d : ProviderErrorClassification)
      → IsAdvised error c
      → IsAdvised error d
      → IsAdvised error (if b then c else d)
  IsAdvised-if true c d hc hd = hc
  IsAdvised-if false c d hc hd = hd

  classify_text-IsAdvised : IsAdvised error (classify_text error)
  unfolding classify_text
  classify_text-IsAdvised = IsAdvised-if _ _ _ (IsAdvised-classified rate_limited (λ e. cc)) (
      IsAdvised-if _ _ _ (IsAdvised-classified service_unavailable (λ e. cc)) (
        IsAdvised-if _ _ _ (IsAdvised-classified authentication_error (λ e. cc)) (
          IsAdvised-if _ _ _ (IsAdvised-classified context_overflow (λ e. cc)) (
            IsAdvised-if _ _ _ (IsAdvised-classified timeout (λ e. cc))
              (IsAdvised-classified unknown (λ e. cc))))))

-- Every error is a provider issue, whatever its text and status; it may be retried exactly when a
-- delay is suggested, and the delay is the one of its type; no error is classified as an exhausted
-- budget.
pub classify_provider_error_sound :
    (error : String) (status : Option ℕ)
    → let c = classify_provider_error error status in
      (c.is_provider_issue ≡ true)
      × (c.suggested_delay_seconds ≡ advice c.error_type)
      × (c.is_retryable ≡ is_some (advice c.error_type))
      × (c.error_type ≢ budget_exhausted)
      × (c.raw_error ≡ error)
unfolding classify_provider_error
classify_provider_error_sound error status =
    IsAdvised-if error _ _ _ (IsAdvised-classified error rate_limited (λ e. cc)) (
      IsAdvised-if error _ _ _ (IsAdvised-classified error service_unavailable (λ e. cc)) (
        IsAdvised-if error _ _ _ (IsAdvised-classified error authentication_error (λ e. cc))
          (classify_text-IsAdvised error)))
