-- ===== src/Tasks/Router/Refused.antt =====
-- When the guardrails of runtime/tasks.py say no_snapshot_ref.
use deterministic_audit_runt.Prelude.{
  ℕ, String, ◌≡◌, refl, ◌≢◌, inl, inr, not, Option, none, some, Bool-cases, ◌∙◌, Bool, true, false,
  ◌&&◌, if◌then◌else◌, arith,
}
use deterministic_audit_runt.Errors.{>>=-eq-ok, ok_inj, err_ne_ok, ok, Result}
use deterministic_audit_runt.Tasks.Types.{
  new_target, AuditTask, or_text, Host, queue_check, is_blank, TaskTarget, read_kind, strippable,
}
use deterministic_audit_runt.Tasks.Router.Candidate.{
  get_candidate_snapshot_ref, create_placeholder_task, truthy_text, no_snapshot_ref, CandidateType,
  already_processed, deferred_run_limit, deferred_audit_limit, Refusal, no_evidence_refs,
  invalid_type, extract_primary_file, has_text, candidate_type_named,
}
use deterministic_audit_runt.Tasks.Router.Guards.{
  evidence_guards, refused, guard_candidate, admitted, confidence_refusal, Guarded, above_limit,
  needs_file,
}
use deterministic_audit_runt.Policies.{CandidateRoutingPolicy, at_limit}
use deterministic_audit_runt.Json.{Json, str, null, get_default, arr, nil, get}
use deterministic_audit_runt.Tasks.Text.{no_text, strip, lstrip, rstrip, normalize_target_value}
use deterministic_audit_runt.EventStore.Repair.{refused}
use mathlib.Core.Path.{ap}
use deterministic_audit_runt.RunLedger.{iterate}
use deterministic_audit_runt.Tasks.Planner.{first_given}
use deterministic_audit_runt.Json.Canonical.{equals}

some_ne_none {ℓ} : {A : Type ℓ} {a : A} → some a ≢ none
some_ne_none same = cc

-- No target has an empty snapshot.
new_target-snapshot :
    (kind value range : Json) (target : TaskTarget)
    → new_target kind value (str "") range ≢ ok target
unfolding new_target queue_check is_blank strip lstrip rstrip
new_target-snapshot kind value range target h =
    let (k, _, h1) = >>=-eq-ok (read_kind kind) _ h in
    let (raw, _, h2) = >>=-eq-ok (strippable value) _ h1 in
    let (_, _, h3) = >>=-eq-ok (queue_check (not (is_blank (normalize_target_value k raw)))) _ h2 in
    err_ne_ok h3

truthy_text-none : (ref : Option String) → truthy_text ref ≡ none → or_text ref "" ≡ ""
truthy_text-none none absent = refl
truthy_text-none (some s) absent = elim (Bool-cases (no_text s)) [
  | inl q ↦ rw q refl
  | inr q ↦ absurd (some_ne_none (rw q at absent))
]

-- A placeholder is a task, and a task wants a snapshot.
pub no_placeholder :
    (host : Host) (audit_id candidate_id : String) (ref created_at : Option String)
    (task : AuditTask)
    → truthy_text ref ≡ none
    → create_placeholder_task host audit_id candidate_id ref created_at ≢ ok task
unfolding create_placeholder_task
no_placeholder host audit_id candidate_id ref created_at task absent h =
    let (target, q, _) =
      >>=-eq-ok (new_target (str "candidate") (str candidate_id) (str (or_text ref "")) null) _ h in
    new_target-snapshot (str "candidate") (str candidate_id) null target
      (rw (truthy_text-none ref absent) at q)

-- Where the guardrails find no snapshot, there is none for the audit.
get_candidate_snapshot_ref-none :
    (candidate : Json) (ref : Option String)
    → get_candidate_snapshot_ref candidate ref ≡ ok none
    → truthy_text ref ≡ none
unfolding get_candidate_snapshot_ref
get_candidate_snapshot_ref-none candidate ref h =
    let (evidence_refs, _, h1) =
      >>=-eq-ok (get_default "supporting_evidence_refs" (arr nil) candidate) _ h in
    let (refs, _, h2) = >>=-eq-ok (iterate evidence_refs) _ h1 in
    let (found, _, h3) = >>=-eq-ok (first_given "snapshot_ref" refs) _ h2 in
    absent found (ok_inj h3)
  where
    absent :
        (found : Option String)
        → (elim found [ none ↦ truthy_text ref | some s ↦ some s ]) ≡ none
        → truthy_text ref ≡ none
    absent none h = h
    absent (some s) h = absurd (some_ne_none h)

-- Past a guard that says something else.
past :
    (b : Bool) (o : Refusal) (r : Result Guarded)
    → o ≢ no_snapshot_ref
    → (if b then ok (refused o) else r) ≡ ok (refused no_snapshot_ref)
    → r ≡ ok (refused no_snapshot_ref)
past true o r other h = absurd (other cc)
past false o r other h = h

deferred_run_limit_ne : deferred_run_limit ≢ no_snapshot_ref
deferred_run_limit_ne same = cc

no_evidence_refs_ne : no_evidence_refs ≢ no_snapshot_ref
no_evidence_refs_ne same = cc

deferred_audit_limit_ne : deferred_audit_limit ≢ no_snapshot_ref
deferred_audit_limit_ne same = cc

already_processed_ne : already_processed ≢ no_snapshot_ref
already_processed_ne same = cc

evidence_guards-no_snapshot :
    (p : CandidateRoutingPolicy) (ty : CandidateType) (candidate : Json) (n : ℕ)
    (ref : Option String)
    → evidence_guards p ty candidate n ref ≡ ok (refused no_snapshot_ref)
    → truthy_text ref ≡ none
unfolding evidence_guards
evidence_guards-no_snapshot p ty candidate n ref h =
    let (primary, _, h1) = >>=-eq-ok (extract_primary_file candidate) _ h in
    let h2 =
      past (not (has_text primary) && needs_file ty) no_evidence_refs _ no_evidence_refs_ne h1 in
    let h3 =
      past (at_limit n p.max_verify_tasks_per_run) deferred_run_limit _ deferred_run_limit_ne h2 in
    let (found, q, h4) = >>=-eq-ok (get_candidate_snapshot_ref candidate ref) _ h3 in
    get_candidate_snapshot_ref-none candidate ref (q ∙ ap ok (unfound found (ok_inj h4)))
  where
    unfound :
        (found : Option String)
        → ◌≡◌ {A = Guarded}
            (elim found [ none ↦ refused no_snapshot_ref | some s ↦ admitted ty s ])
            (refused no_snapshot_ref)
        → found ≡ none
    unfound none h = refl
    unfound (some s) h = cc

confidence_refusal_ne :
    (p : CandidateRoutingPolicy) (ty : CandidateType) (confidence : Json)
    → confidence_refusal p ty confidence ≢ some no_snapshot_ref
unfolding confidence_refusal
confidence_refusal_ne p ty confidence h = ground arith

pub guard_candidate-no_snapshot :
    (p : CandidateRoutingPolicy) (m n : ℕ) (candidate : Json) (ref : Option String)
    → guard_candidate p m n candidate ref ≡ ok (refused no_snapshot_ref)
    → truthy_text ref ≡ none
unfolding guard_candidate
guard_candidate-no_snapshot p m n candidate ref h =
    let h1 =
      past (above_limit m p.max_candidates_per_audit) deferred_audit_limit _ deferred_audit_limit_ne
        h in
    let (status, _, h2) = >>=-eq-ok (get "status" candidate) _ h1 in
    let (named, _, h3) = >>=-eq-ok (get "candidate_type" candidate) _ h2 in
    let (confidence, _, h4) = >>=-eq-ok (get "confidence" candidate) _ h3 in
    typed confidence (candidate_type_named named)
      (past (not (equals status (str "proposed"))) already_processed _ already_processed_ne h4)
  where
    trusted :
        (ty : CandidateType) (found : Option Refusal)
        → found ≢ some no_snapshot_ref
        → ◌≡◌ {A = Result Guarded}
            (elim found [
              | some outcome ↦ ok (refused outcome)
              | none ↦ evidence_guards p ty candidate n ref
            ])
            (ok (refused no_snapshot_ref))
        → truthy_text ref ≡ none
    trusted ty none other h = evidence_guards-no_snapshot p ty candidate n ref h
    trusted ty (some o) other h = absurd (other cc)

    typed :
        (confidence : Json) (ty : Option CandidateType)
        → ◌≡◌ {A = Result Guarded}
            (elim ty [
              | none ↦ ok (refused invalid_type)
              | some candidate_type ↦ elim (confidence_refusal p candidate_type confidence) [
                | some outcome ↦ ok (refused outcome)
                | none ↦ evidence_guards p candidate_type candidate n ref
              ]
            ])
            (ok (refused no_snapshot_ref))
        → truthy_text ref ≡ none
    typed confidence none h = cc
    typed confidence (some ty) h =
        trusted ty (confidence_refusal p ty confidence) (confidence_refusal_ne p ty confidence) h
