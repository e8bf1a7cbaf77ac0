-- ===== src/Tasks/Router/Counts.antt =====
-- What a routing summary of runtime/tasks.py counts.
use deterministic_audit_runt.Prelude.{
  suc, ◌+◌, String, ◌≡◌, inl, inr, Option, none, some, List, [], ◌∷◌, arith, if◌then◌else◌,
  Bool-cases, not, ◌&&◌, ℕ, sym, Bool, false, true,
}
use deterministic_audit_runt.Errors.{>>=-eq-ok, ok_inj, ok, err_ne_ok, attribute_error, err}
use mathlib.Core.Path.{subst}
use deterministic_audit_runt.Tasks.Router.Summary.{
  RoutingSummary, get_routing_summary, summarize_candidate, summarize_typed, summary_loop,
  empty_summary,
}
use deterministic_audit_runt.Json.{Json, Fields, get, obj, str}
use deterministic_audit_runt.Tasks.Router.Candidate.{
  cross_file_correlation, risk_candidate, policy_candidate, verification_target, CandidateType,
  candidate_type_named, extract_primary_file, has_text,
}
use deterministic_audit_runt.Json.Canonical.{equals}
use deterministic_audit_runt.Tasks.Planner.{values_of}
use deterministic_audit_runt.Tasks.Router.Guards.{needs_file}

-- The value under a key is this text.
unfoldable pub reads_as : String → String → Json → Bool
unfolding get equals
reads_as key s candidate = elim (get key candidate) [ err e ↦ false | ok v ↦ equals v (str s) ]

reads_as-get :
    (key s : String) (candidate v : Json) (b : Bool)
    → get key candidate ≡ ok v
    → equals v (str s) ≡ b
    → reads_as key s candidate ≡ b
unfolding reads_as
reads_as-get key s candidate v b e q = rw (reads_as, e) q

-- How many candidates are of the audit, and how many of those are proposed no longer.
unfoldable pub of_audit : String → List Json → ℕ
of_audit audit_id [] = 0
of_audit audit_id (c ∷ cs) =
    let rest = of_audit audit_id cs in if reads_as "audit_id" audit_id c then suc rest else rest

unfoldable pub no_longer_proposed : String → List Json → ℕ
no_longer_proposed audit_id [] = 0
no_longer_proposed audit_id (c ∷ cs) =
    let rest = no_longer_proposed audit_id cs in
    if reads_as "audit_id" audit_id c && not (reads_as "status" "proposed" c)
    then suc rest
    else rest

-- Two counts as they were.
abbrev Keeps : RoutingSummary → RoutingSummary → Type 0
Keeps s t = (t.total_candidates ≡ s.total_candidates) × (t.already_processed ≡ s.already_processed)

-- The counts add up, and two of them stay 0.
abbrev pub Adds : RoutingSummary → Type 0
Adds s =
    (s.total_candidates
      ≡ s.routed_to_verify + s.already_processed + s.invalid_type + s.no_evidence_refs)
    × (s.deferred_low_confidence ≡ 0)
    × (s.cross_file_tasks ≡ 0)

-- A summary with the next candidate counted in the total only.
abbrev Owes : RoutingSummary → Type 0
Owes s =
    (s.total_candidates
      ≡ suc (s.routed_to_verify + s.already_processed + s.invalid_type + s.no_evidence_refs))
    × (s.deferred_low_confidence ≡ 0)
    × (s.cross_file_tasks ≡ 0)

summarize_typed-Adds :
    (ty : CandidateType) (candidate confidence : Json) (s t : RoutingSummary)
    → Owes s
    → summarize_typed ty candidate confidence s ≡ ok t
    → Adds t × Keeps s t
unfolding summarize_typed
summarize_typed-Adds ty candidate confidence s t owes h =
    elim (Bool-cases (equals confidence (str "low"))) [
      | inl q ↦ absurd (err_ne_ok (rw q at h))
      | inr q ↦
          let (primary, _, h1) = >>=-eq-ok (extract_primary_file candidate) _ (rw q at h) in
          elim (Bool-cases (not (has_text primary) && needs_file ty)) [
            | inl no_file ↦
                subst (λ u. Adds u × Keeps s u) (ok_inj (rw no_file at h1)) (ground arith)
            | inr usable ↦ routed ty (rw usable at h1)
          ]
    ]
  where
    routed :
        (ty : CandidateType)
        → (elim ty [
          | cross_file_correlation ↦ err attribute_error
          | risk_candidate ↦ ok (record s { routed_to_verify = suc s.routed_to_verify })
          | policy_candidate ↦ ok (record s { routed_to_verify = suc s.routed_to_verify })
          | verification_target ↦ ok (record s { routed_to_verify = suc s.routed_to_verify })
        ])
          ≡ ok t
        → Adds t × Keeps s t
    routed cross_file_correlation h = absurd (err_ne_ok h)
    routed risk_candidate h = subst (λ u. Adds u × Keeps s u) (ok_inj h) (ground arith)
    routed policy_candidate h = subst (λ u. Adds u × Keeps s u) (ok_inj h) (ground arith)
    routed verification_target h = subst (λ u. Adds u × Keeps s u) (ok_inj h) (ground arith)

-- A candidate that is counted as already processed, or not.
abbrev Counted : Json → RoutingSummary → RoutingSummary → Type 0
Counted candidate s t =
    Adds t
    × (t.total_candidates ≡ s.total_candidates)
    × (t.already_processed ≡ (
        if reads_as "status" "proposed" candidate
        then s.already_processed
        else suc s.already_processed))

summarize_candidate-Adds :
    (candidate : Json) (s t : RoutingSummary)
    → Owes s
    → summarize_candidate candidate s ≡ ok t
    → Counted candidate s t
unfolding summarize_candidate
summarize_candidate-Adds candidate s t owes h =
    let (status, e, h1) = >>=-eq-ok (get "status" candidate) _ h in
    let (named, _, h2) = >>=-eq-ok (get "candidate_type" candidate) _ h1 in
    let (confidence, _, h3) = >>=-eq-ok (get "confidence" candidate) _ h2 in
    elim (Bool-cases (equals status (str "proposed"))) [
      | inl q ↦
          rw (reads_as-get "status" "proposed" candidate status true e q)
            (ground (arith, typed confidence (candidate_type_named named) (rw q at h3)))
      | inr q ↦ rw (reads_as-get "status" "proposed" candidate status false e q) (
          subst
            (λ u.
              Adds u
              × (u.total_candidates ≡ s.total_candidates)
              × (u.already_processed ≡ suc s.already_processed))
            (ok_inj (rw q at h3)) (ground arith))
    ]
  where
    typed :
        (confidence : Json) (ty : Option CandidateType)
        → (elim ty [
          | none ↦ ok (record s { invalid_type = suc s.invalid_type })
          | some candidate_type ↦ summarize_typed candidate_type candidate confidence s
        ])
          ≡ ok t
        → Adds t × Keeps s t
    typed confidence none h = subst (λ u. Adds u × Keeps s u) (ok_inj h) (ground arith)
    typed confidence (some ty) h = summarize_typed-Adds ty candidate confidence s t owes h

-- What a loop over candidates does to a summary.
abbrev Sums : String → List Json → RoutingSummary → RoutingSummary → Type 0
Sums audit_id cs s t =
    Adds t
    × (t.total_candidates ≡ of_audit audit_id cs + s.total_candidates)
    × (t.already_processed ≡ no_longer_proposed audit_id cs + s.already_processed)

summary_loop-Sums :
    (audit_id : String) (candidates : List Json) (s t : RoutingSummary)
    → Adds s
    → summary_loop audit_id candidates s ≡ ok t
    → Sums audit_id candidates s t
unfolding summary_loop of_audit no_longer_proposed
summary_loop-Sums audit_id [] s t adds h = subst (Sums audit_id [] s) (ok_inj h) (ground arith)
summary_loop-Sums audit_id (candidate ∷ rest) s t adds h =
    let (audit, e, h1) = >>=-eq-ok (get "audit_id" candidate) _ h in
    let counted = record s { total_candidates = suc s.total_candidates } in
    let (next, q, h2) =
      >>=-eq-ok
        (if equals audit (str audit_id) then summarize_candidate candidate counted else ok s) _
        h1 in
    elim (Bool-cases (equals audit (str audit_id))) [
      | inl here ↦
          let one = summarize_candidate-Adds candidate counted next (ground arith) (rw here at q) in
          let later = summary_loop-Sums audit_id rest next t one.0 h2 in
          rw (reads_as-get "audit_id" audit_id candidate audit true e here) (ground arith)
      | inr other ↦
          let same = ok_inj (rw other at q) in
          let later = summary_loop-Sums audit_id rest s t adds (rw (sym same) at h2) in
          rw (reads_as-get "audit_id" audit_id candidate audit false e other) (ground arith)
    ]

-- A routing summary that is returned counts every candidate of the audit in total_candidates, and
-- every one of them that is proposed no longer in already_processed. The counts routed_to_verify,
-- already_processed, invalid_type and no_evidence_refs add up to the total, and
-- deferred_low_confidence and cross_file_tasks are 0.
pub get_routing_summary-Adds :
    (audit_id : String) (candidates : Fields) (s : RoutingSummary)
    → get_routing_summary audit_id (obj candidates) ≡ ok s
    → Adds s
      × (s.total_candidates ≡ of_audit audit_id (values_of candidates))
      × (s.already_processed ≡ no_longer_proposed audit_id (values_of candidates))
unfolding get_routing_summary
get_routing_summary-Adds audit_id candidates s h =
    let sums = summary_loop-Sums audit_id (values_of candidates) empty_summary s (ground arith) h in
    ground arith
