-- ===== src/Rejection/Detail.antt =====
-- Every classified rejection of runtime/rejection.py carries the stage of its reason.
use deterministic_audit_runt.Prelude.{
  ℕ, zero, suc, ◌≤◌, String, ◌≡◌, refl, ◌↔◌, Option, none, some, List, [], ◌∷◌, arith, length,
}
use deterministic_audit_runt.Errors.{ok}
use deterministic_audit_runt.Rejection.{
  stage_of, construct, take, excerpt, classify_parse_rejection, classify_schema_rejection,
  classify_candidate_missing_rejection, classify_candidate_empty_rejection,
  classify_policy_rejection, classify_transport_rejection, parse_non_json, schema_invalid,
  candidate_missing, candidate_empty, transport_rejected, RejectionDetail, policy_rejected,
}

-- A detail can be constructed exactly when its stage is the one of its reason.
pub construct_iff : (d : RejectionDetail) → (construct d ≡ ok d) ↔ (d.stage ≡ stage_of d.reason)
unfolding construct
construct_iff d = (λ e. ground arith, λ e. ground arith)

-- Each classifier succeeds, with its own reason.
pub classifiers_succeed :
    (raw : Option (List ℕ)) (message : String) (n : ℕ) (a b c : Option String)
    → ((d : RejectionDetail) × (classify_parse_rejection raw message n ≡ ok d)
        × (d.reason ≡ parse_non_json)
        × (d.raw_output_excerpt ≡ excerpt raw n))
      × ((d : RejectionDetail) × (classify_schema_rejection a message b raw ≡ ok d)
          × (d.reason ≡ schema_invalid)
          × (d.schema_path ≡ a))
      × ((d : RejectionDetail) × (classify_candidate_missing_rejection message ≡ ok d)
          × (d.reason ≡ candidate_missing))
      × ((d : RejectionDetail) × (classify_candidate_empty_rejection message a ≡ ok d)
          × (d.reason ≡ candidate_empty))
      × ((d : RejectionDetail) × (classify_policy_rejection message a b c ≡ ok d)
          × (d.reason ≡ policy_rejected)
          × (d.validator_code ≡ a))
      × ((d : RejectionDetail) × (classify_transport_rejection message a b ≡ ok d)
          × (d.reason ≡ transport_rejected)
          × (d.schema_path ≡ b))
unfolding classify_parse_rejection classify_schema_rejection classify_candidate_missing_rejection
    classify_candidate_empty_rejection classify_policy_rejection classify_transport_rejection
classifiers_succeed raw message n a b c = (
  (_, refl, refl, refl),
  (_, refl, refl, refl),
  (_, refl, refl),
  (_, refl, refl),
  (_, refl, refl, refl),
  (_, refl, refl, refl),
)

length-take-le : (n : ℕ) (xs : List ℕ) → length (take n xs) ≤ n
unfolding take
length-take-le zero xs = omega arith
length-take-le (suc n) [] = omega arith
length-take-le (suc n) (x ∷ xs) = omega (arith, length-take-le n xs)

-- An excerpt is never longer than the limit.
pub excerpt-le :
    (raw : Option (List ℕ)) (n : ℕ) (cs : List ℕ) → excerpt raw n ≡ some cs → length cs ≤ n
unfolding excerpt
excerpt-le none n cs h = cc
excerpt-le (some []) n cs h = cc
excerpt-le (some (c ∷ ds)) n cs h = ground (arith, length-take-le n (c ∷ ds))
