-- ===== src/Rejection/Chain.antt =====
-- The rejection chain of runtime/rejection.py: its counts, and the invariant that a task without
-- accepted events has an explanation.
use deterministic_audit_runt.Prelude.{
  ℕ, suc, ◌+◌, String, ◌≡◌, refl, ◌≢◌, ◌↔◌, ◌⊎◌, inl, inr, Bool, true, false, Option, none, some,
  List, [], ◌∷◌, arith, length, length-append, if◌then◌else◌, Bool-cases, is_empty, sym, ◌∙◌,
}
use deterministic_audit_runt.Errors.{ok, err_ne_ok, rejection_invariant_violation, err}
use deterministic_audit_runt.Rejection.{
  same_stage, new_chain, add_rejection, is_parse_non_json, set_parse_failure, has_reason_chain,
  Summary, count_of, bump, summarize, stage_summary, enforce_rejection_invariant,
  create_completed_no_events_explanation, RejectionReason, parse_non_json, RejectionStage, parse,
  schema, candidate, policy, transport, RejectionDetail, RejectionChain,
}
use mathlib.Core.Path.{subst}

-- The rejections of a list that stand at a stage.
unfoldable pub rejected_at : RejectionStage → List RejectionDetail → ℕ
unfolding same_stage
rejected_at s [] = 0
rejected_at s (d ∷ rest) =
    if same_stage d.stage s then suc (rejected_at s rest) else rejected_at s rest

same_stage_refl : (s : RejectionStage) → same_stage s s ≡ true
unfolding same_stage
same_stage_refl parse = refl
same_stage_refl _ = refl

same_stage→eq : (s t : RejectionStage) → same_stage s t ≡ true → s ≡ t
unfolding same_stage
same_stage→eq parse parse h = refl
same_stage→eq schema schema h = refl
same_stage→eq candidate candidate h = refl
same_stage→eq policy policy h = refl
same_stage→eq transport transport h = refl
same_stage→eq _ _ h = cc

count_of-bump :
    (s t : RejectionStage) (m : Summary)
    → count_of s (bump t m) ≡ (if same_stage t s then suc (count_of s m) else count_of s m)
unfolding count_of bump
count_of-bump s t [] = ground arith
count_of-bump s t ((u, n) ∷ m) = ground (
  arith,
  count_of-bump s t m,
  same_stage→eq u t,
  same_stage→eq u s,
  same_stage→eq t s,
  same_stage_refl s,
)

count_of-summarize :
    (s : RejectionStage) (m : Summary) (ds : List RejectionDetail)
    → count_of s (summarize m ds) ≡ count_of s m + rejected_at s ds
unfolding summarize rejected_at
count_of-summarize s m [] = omega arith
count_of-summarize s m (d ∷ ds) =
    ground (arith, count_of-summarize s (bump d.stage m) ds, count_of-bump s d.stage m)

-- The summary and the explanation count, for each stage, the rejections of the chain at that stage.
pub stage_summary-counts :
    (s : RejectionStage) (chain : RejectionChain)
    → (count_of s (stage_summary chain) ≡ rejected_at s chain.rejections)
      × (count_of s (create_completed_no_events_explanation chain).stage_breakdown
          ≡ rejected_at s chain.rejections)
unfolding stage_summary create_completed_no_events_explanation
stage_summary-counts s chain =
    let e : count_of s (summarize [] chain.rejections) ≡ rejected_at s chain.rejections =
      unfold count_of in omega (arith, count_of-summarize s [] chain.rejections) in
    (e, e)

-- The chains that a task can build.
pub data Built (task_id worker_role : String) : RejectionChain → Type 0 where
  fresh : Built task_id worker_role (new_chain task_id worker_role)
  added :
      (chain : RejectionChain) (d : RejectionDetail)
      → Built task_id worker_role chain
      → Built task_id worker_role (add_rejection d chain)
  failed :
      (chain chain' : RejectionChain) (d : RejectionDetail)
      → set_parse_failure d chain ≡ ok chain'
      → Built task_id worker_role chain
      → Built task_id worker_role chain'

abbrev IsParseFailure : Option RejectionDetail → Type 0
IsParseFailure none = Unit
IsParseFailure (some d) = d.reason ≡ parse_non_json

-- A chain is about its task, counts its rejections, and holds a parse failure for nothing else.
pub record IsConsistent (task_id worker_role : String) (chain : RejectionChain) : Type 0 where
  pub task : chain.task_id ≡ task_id
  pub role : chain.worker_role ≡ worker_role
  pub counted : chain.total_candidates ≡ length chain.rejections
  pub parsed : IsParseFailure chain.parse_failure

is_parse_non_json→eq : (r : RejectionReason) → is_parse_non_json r ≡ true → r ≡ parse_non_json
is_parse_non_json→eq parse_non_json h = refl
is_parse_non_json→eq _ h = cc

parsed_chain :
    (chain chain' : RejectionChain) (d : RejectionDetail)
    → is_parse_non_json d.reason ≡ true
    → set_parse_failure d chain ≡ ok chain'
    → record chain { parse_failure = some d } ≡ chain'
unfolding set_parse_failure
parsed_chain chain chain' d p h = ground arith

module _ (task_id worker_role : String) where
  add_rejection-IsConsistent :
      (chain : RejectionChain) (d : RejectionDetail)
      → IsConsistent task_id worker_role chain
      → IsConsistent task_id worker_role (add_rejection d chain)
  unfolding add_rejection
  add_rejection-IsConsistent chain d c = record {
    task = c.task;
    role = c.role;
    counted = omega (arith, c.counted, length-append {0} chain.rejections (d ∷ []));
    parsed = c.parsed;
  }

  set_parse_failure-IsConsistent :
      (chain chain' : RejectionChain) (d : RejectionDetail)
      → set_parse_failure d chain ≡ ok chain'
      → IsConsistent task_id worker_role chain
      → IsConsistent task_id worker_role chain'
  unfolding set_parse_failure
  set_parse_failure-IsConsistent chain chain' d h c =
      elim (Bool-cases (is_parse_non_json d.reason)) [
        | inl p ↦
            subst (IsConsistent task_id worker_role) (parsed_chain chain chain' d p h) (record {
              task = c.task;
              role = c.role;
              counted = c.counted;
              parsed = is_parse_non_json→eq d.reason p;
            })
        | inr n ↦ absurd (ground arith)
      ]

  -- Every chain that is built from a new one by the two operations is consistent.
  pub Built-IsConsistent :
      {chain : RejectionChain}
      → Built task_id worker_role chain
      → IsConsistent task_id worker_role chain
  unfolding new_chain
  Built-IsConsistent fresh = record { task = refl; role = refl; counted = refl; parsed = tt }
  Built-IsConsistent (added chain d b) = add_rejection-IsConsistent chain d (Built-IsConsistent b)
  Built-IsConsistent (failed chain chain' d h b) =
      set_parse_failure-IsConsistent chain chain' d h (Built-IsConsistent b)

some_injective : {c d : RejectionChain} → some c ≡ some d → c ≡ d
some_injective e = cc

explained :
    (chain : RejectionChain)
    → has_reason_chain chain ≡ true
    → (chain.rejections ≢ []) ⊎ (chain.parse_failure ≢ none)
unfolding has_reason_chain
explained chain h = elim (Bool-cases (is_empty chain.rejections)) [
  | inl e ↦ inr (λ p. ground arith)
  | inr e ↦ inl (λ p. ground arith)
]

explained_conv :
    (chain : RejectionChain)
    → (chain.rejections ≢ []) ⊎ (chain.parse_failure ≢ none)
    → has_reason_chain chain ≡ true
unfolding has_reason_chain
explained_conv chain h = ground arith

-- An event was accepted, or a chain is given that holds a rejection or a parse failure.
abbrev pub IsExplained : Bool → Option RejectionChain → Type 0
IsExplained has_accepted chain =
    (has_accepted ≡ true)
    ⊎ ((c : RejectionChain) × (chain ≡ some c) × ((c.rejections ≢ []) ⊎ (c.parse_failure ≢ none)))

passes_iff :
    (has_accepted : Bool) (chain : Option RejectionChain)
    → (enforce_rejection_invariant has_accepted chain ≡ ok tt) ↔ IsExplained has_accepted chain
unfolding enforce_rejection_invariant has_reason_chain
passes_iff true chain = (λ e. inl refl, λ h. refl)
passes_iff false none =
    (λ e. absurd (cc), λ h. elim h [ inl x ↦ absurd (cc) | inr (c, e, w) ↦ absurd (cc) ])
passes_iff false (some c) = (
  λ e. inr (c, refl, explained c (ground arith)),
  λ h. elim h [
    | inl x ↦ absurd (cc)
    | inr (d, e, w) ↦ rw (explained_conv c (rw (some_injective e) w))
  ],
)

raises_or_passes :
    (has_accepted : Bool) (chain : Option RejectionChain)
    → enforce_rejection_invariant has_accepted chain ≢ ok tt
    → enforce_rejection_invariant has_accepted chain ≡ err rejection_invariant_violation
unfolding enforce_rejection_invariant has_reason_chain
raises_or_passes true chain h = absurd (h refl)
raises_or_passes false none h = refl
raises_or_passes false (some c) h = elim (Bool-cases (has_reason_chain c)) [
  | inl q ↦ absurd (h (rw (has_reason_chain, q) refl))
  | inr q ↦ rw (has_reason_chain, q) refl
]

-- The check passes exactly when an event was accepted, or a chain is given that holds a rejection or
-- a parse failure, and it raises RejectionInvariantViolation exactly when that is not so.
pub enforce_rejection_invariant_iff :
    (has_accepted : Bool) (chain : Option RejectionChain)
    → ((enforce_rejection_invariant has_accepted chain ≡ ok tt) ↔ IsExplained has_accepted chain)
      × ((enforce_rejection_invariant has_accepted chain ≡ err rejection_invariant_violation)
          ↔ (¬ IsExplained has_accepted chain))
enforce_rejection_invariant_iff has_accepted chain =
    let (explained, passes) = passes_iff has_accepted chain in
    (
      (explained, passes),
      (
        λ raised reason. err_ne_ok (sym raised ∙ passes reason),
        λ unexplained.
            raises_or_passes has_accepted chain (λ passed. unexplained (explained passed)),
      ),
    )
