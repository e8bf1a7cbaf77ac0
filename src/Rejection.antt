-- ===== src/Rejection.antt =====
-- runtime/rejection.py: classified rejections, the chain that explains why a task has no accepted
-- event, and the check that such a chain is there. A raw output is the list of its code points; a
-- confidence is carried by its text.
pub mod Detail
pub mod Chain
use Prim.Native.String as Text
use deterministic_audit_runt.Prelude.{
  ℕ, zero, suc, ◌+◌, String, Bool, true, false, not, ◌||◌, Option, none, some, List, [], ◌∷◌, ◌++◌,
  ◌==◌, length, is_empty, ltb, if◌then◌else◌,
}
use deterministic_audit_runt.Errors.{value_error, rejection_invariant_violation, Result, ok, err}

pub data RejectionReason : Type 0 where
  parse_non_json schema_invalid candidate_missing candidate_empty : RejectionReason
  policy_rejected transport_rejected : RejectionReason

pub data RejectionStage : Type 0 where
  parse schema candidate policy transport : RejectionStage

-- REJECTION_REASON_TO_STAGE, which has an entry for every reason.
unfoldable pub stage_of : RejectionReason → RejectionStage
stage_of parse_non_json = parse
stage_of schema_invalid = schema
stage_of candidate_missing = candidate
stage_of candidate_empty = candidate
stage_of policy_rejected = policy
stage_of transport_rejected = transport

unfoldable pub same_stage : RejectionStage → RejectionStage → Bool
same_stage parse parse = true
same_stage schema schema = true
same_stage candidate candidate = true
same_stage policy policy = true
same_stage transport transport = true
same_stage _ _ = false

pub record RejectionDetail : Type 0 where
  pub reason : RejectionReason
  pub stage : RejectionStage
  pub message : String
  pub raw_output_excerpt : Option (List ℕ)
  pub schema_path : Option String
  pub validator_code : Option String
  pub metadata : List (String × String)

-- `__post_init__`, which each construction runs.
unfoldable pub construct : RejectionDetail → Result RejectionDetail
unfolding stage_of same_stage
construct d = if same_stage d.stage (stage_of d.reason) then ok d else err value_error

unfoldable pub take : ℕ → List ℕ → List ℕ
take zero xs = []
take (suc n) [] = []
take (suc n) (x ∷ xs) = x ∷ take n xs

-- An empty output has no excerpt.
unfoldable pub excerpt : Option (List ℕ) → ℕ → Option (List ℕ)
unfolding take
excerpt none n = none
excerpt (some []) n = none
excerpt (some (c ∷ cs)) n = some (if ltb n (length (c ∷ cs)) then take n (c ∷ cs) else c ∷ cs)

abbrev detail : RejectionReason → RejectionStage → String → RejectionDetail
detail reason stage message = record {
  reason = reason;
  stage = stage;
  message = message;
  raw_output_excerpt = none;
  schema_path = none;
  validator_code = none;
  metadata = [];
}

unfoldable pub classify_parse_rejection : Option (List ℕ) → String → ℕ → Result RejectionDetail
unfolding construct excerpt
classify_parse_rejection raw_output error_message n =
    let message = Text.◌++◌ "Failed to parse output as JSON: " error_message in
    construct
      (record (detail parse_non_json parse message) { raw_output_excerpt = excerpt raw_output n })

unfoldable pub classify_schema_rejection :
    Option String → String → Option String → Option (List ℕ) → Result RejectionDetail
unfolding construct
classify_schema_rejection path error_message code raw =
    construct (record (detail schema_invalid schema error_message) {
      schema_path = path;
      validator_code = code;
      raw_output_excerpt = raw;
    })

unfoldable pub classify_candidate_missing_rejection : String → Result RejectionDetail
unfolding construct
classify_candidate_missing_rejection error_message =
    construct (detail candidate_missing candidate error_message)

-- `count` is the decimal text of the number of candidates.
unfoldable pub classify_candidate_empty_rejection : String → Option String → Result RejectionDetail
unfolding construct
classify_candidate_empty_rejection count error_message =
    let fallback = Text.◌++◌ "candidate_events array is empty (count=" (Text.◌++◌ count ")") in
    let message : String = elim error_message [
      | none ↦ fallback
      | some m ↦ if m == "" then fallback else m
    ] in
    construct (record (detail candidate_empty candidate message) {
      metadata = ("candidate_count", count) ∷ [];
    })

abbrev entry : String → Option String → List (String × String)
entry key none = []
entry key (some v) = (key, v) ∷ []

abbrev nonempty : Option String → Option String
nonempty none = none
nonempty (some s) = if s == "" then none else some s

unfoldable pub classify_policy_rejection :
    String → Option String → Option String → Option String → Result RejectionDetail
unfolding construct
classify_policy_rejection error_message code policy_name confidence =
    construct (record (detail policy_rejected policy error_message) {
      validator_code = code;
      metadata = entry "policy_name" (nonempty policy_name) ++ entry "confidence" confidence;
    })

unfoldable pub classify_transport_rejection :
    String → Option String → Option String → Result RejectionDetail
unfolding construct
classify_transport_rejection error_message code path =
    construct (record (detail transport_rejected transport error_message) {
      validator_code = code;
      schema_path = path;
    })

pub record RejectionChain : Type 0 where
  pub task_id : String
  pub worker_role : String
  pub total_candidates : ℕ
  pub rejections : List RejectionDetail
  pub parse_failure : Option RejectionDetail

unfoldable pub new_chain : String → String → RejectionChain
new_chain task_id worker_role = record {
  task_id = task_id;
  worker_role = worker_role;
  total_candidates = 0;
  rejections = [];
  parse_failure = none;
}

unfoldable pub add_rejection : RejectionDetail → RejectionChain → RejectionChain
add_rejection d chain = record chain {
  rejections = chain.rejections ++ d ∷ [];
  total_candidates = chain.total_candidates + 1;
}

abbrev pub is_parse_non_json : RejectionReason → Bool
is_parse_non_json parse_non_json = true
is_parse_non_json _ = false

unfoldable pub set_parse_failure : RejectionDetail → RejectionChain → Result RejectionChain
set_parse_failure d chain =
    if is_parse_non_json d.reason
    then ok (record chain { parse_failure = some d })
    else err value_error

abbrev is_present : Option RejectionDetail → Bool
is_present none = false
is_present (some d) = true

unfoldable pub has_reason_chain : RejectionChain → Bool
has_reason_chain chain = not (is_empty chain.rejections) || is_present chain.parse_failure

-- A dict from stages to counts, in the order of the first rejection of each stage.
abbrev pub Summary : Type 0
Summary = List (RejectionStage × ℕ)

unfoldable pub count_of : RejectionStage → Summary → ℕ
unfolding same_stage
count_of s [] = 0
count_of s ((t, n) ∷ rest) = if same_stage t s then n else count_of s rest

-- `summary[stage] = summary.get(stage, 0) + 1`
unfoldable pub bump : RejectionStage → Summary → Summary
unfolding same_stage
bump s [] = (s, 1) ∷ []
bump s ((t, n) ∷ rest) = if same_stage t s then (t, n + 1) ∷ rest else (t, n) ∷ bump s rest

unfoldable pub summarize : Summary → List RejectionDetail → Summary
unfolding bump
summarize summary [] = summary
summarize summary (d ∷ rest) = summarize (bump d.stage summary) rest

unfoldable pub stage_summary : RejectionChain → Summary
unfolding summarize
stage_summary chain = summarize [] chain.rejections

unfoldable pub enforce_rejection_invariant : Bool → Option RejectionChain → Result (Unit {0})
unfolding has_reason_chain
enforce_rejection_invariant true chain = ok tt
enforce_rejection_invariant false none = err rejection_invariant_violation
enforce_rejection_invariant false (some chain) =
    if not (has_reason_chain chain) then err rejection_invariant_violation else ok tt

pub record Explanation : Type 0 where
  pub task_id : String
  pub worker_role : String
  pub total_candidates : ℕ
  pub rejection_count : ℕ
  pub parse_failed : Bool
  pub stage_breakdown : Summary

unfoldable pub create_completed_no_events_explanation : RejectionChain → Explanation
unfolding stage_summary
create_completed_no_events_explanation chain = record {
  task_id = chain.task_id;
  worker_role = chain.worker_role;
  total_candidates = chain.total_candidates;
  rejection_count = length chain.rejections;
  parse_failed = is_present chain.parse_failure;
  stage_breakdown = stage_summary chain;
}
