-- ===== src/Processing/Stages.antt =====
-- The table of runtime/processing.py against the stages of runtime/rejection.py.
use deterministic_audit_runt.Prelude.{
  ◌≡◌, refl, ◌⊎◌, inl, inr, String, Bool-cases, elem, List, [], ◌∷◌, none, some,
}
use deterministic_audit_runt.Rejection.{stage_of}
use deterministic_audit_runt.Validators.Issue.{ValidationIssue, codes_of}
use deterministic_audit_runt.Processing.{
  rejection_of, schema_codes, transport_codes, policy_codes, TraceRejection, trace_rejection,
}

rejection_of-stage : (code : String) → (rejection_of code).1 ≡ stage_of (rejection_of code).0
unfolding rejection_of stage_of
rejection_of-stage code = elim (Bool-cases (elem code schema_codes)) [
  | inl a ↦ rw (rejection_of, a) refl
  | inr a ↦ elim (Bool-cases (elem code transport_codes)) [
    | inl b ↦ rw (rejection_of, a, b) refl
    | inr b ↦ elim (Bool-cases (elem code policy_codes)) [
      | inl c ↦ rw (rejection_of, a, b, c) refl
      | inr c ↦ rw (rejection_of, a, b, c) refl
    ]
  ]
]

-- A rejected event without issues has no rejection in the trace. Any other has one, whatever the
-- code of its first issue: its layer is the stage that the reason has in the rejection chain, and it
-- lists the codes of all issues.
pub trace_rejection-stage :
    (issues : List ValidationIssue)
    → (issues ≡ []) × (trace_rejection issues ≡ none)
      ⊎ ((t : TraceRejection) × (trace_rejection issues ≡ some t)
          × (t.rejection_layer ≡ stage_of t.rejection_code)
          × (t.all_issue_codes ≡ codes_of issues))
unfolding trace_rejection
trace_rejection-stage [] = inl (refl, refl)
trace_rejection-stage (primary ∷ others) = inr (_, refl, rejection_of-stage primary.code, refl)
