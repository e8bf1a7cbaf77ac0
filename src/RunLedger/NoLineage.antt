-- ===== src/RunLedger/NoLineage.antt =====
-- The lineage from an observation to issues on the ledgers that the code writes.
use mathlib.Core.Option
use deterministic_audit_runt.Prelude.{
  String, ◌≡◌, refl, true, false, none, List, [], ◌∷◌, All, Bool-cases, inl, inr, ap, ◌&&◌, ◌∙◌,
  Bool, if◌then◌else◌, some,
}
use deterministic_audit_runt.Errors.{ok, >>=-eq-ok, ok_inj}
use deterministic_audit_runt.Json.{Json, obj, Fields, lookup, get_default, get, null, end, is_falsy}
use deterministic_audit_runt.EventStore.{LedgerFile}
use deterministic_audit_runt.RunLedger.{
  find_issues_referencing_observation, references_of, references_in, is_reference, field_is,
  lineage_of, CandidateLineage, resolve_candidate_lineage, observation_lineage_of,
  resolve_candidate_trace, CandidateTrace,
}
use deterministic_audit_runt.RunLedger.Candidates.{
  unknown, proposed, routed_to_verify, rejected, resolved_promoted, observation_lineage_of,
  lineage_of, CandidateLineage, resolve_candidate_lineage, resolve_candidate_trace, CandidateTrace,
}
use deterministic_audit_runt.RunLedger.Bare.{IsBareOutcome, IsPlain}
use deterministic_audit_runt.RunLedger.Reach.{IsBare, Recorded, Recorded-IsSound, reads_file}
use deterministic_audit_runt.RunLedger.File.{field_is}
use Prim.Native.String.{String}
use mathlib.Core.Path.{subst}

no_evidence : (b n : Bool) → (if b then ok (n && false) else ok false) ≡ ok false
no_evidence true true = refl
no_evidence true false = refl
no_evidence false n = refl

-- An outcome without evidence is no reference.
is_reference-IsBareOutcome :
    (observation_id : Json) (seen : List Json) (fs : Fields)
    → lookup "evidence_observation_ids" fs ≡ none
    → IsPlain (Option.get_or (lookup "entity_id" fs) null)
    → is_reference observation_id seen (obj fs) ≡ ok false
unfolding is_reference get get_default IsPlain
is_reference-IsBareOutcome observation_id seen fs h plain = rw (h, plain) (no_evidence _ _)

skipped_reference :
    (file : LedgerFile) (observation_id : Json) (seen refs : List Json) (fs : Fields)
    → lookup "evidence_observation_ids" fs ≡ none
    → IsPlain (Option.get_or (lookup "entity_id" fs) null)
    → references_in file observation_id seen (obj fs ∷ refs)
      ≡ references_in file observation_id seen refs
unfolding references_in get get_default
skipped_reference file observation_id seen refs fs h plain =
    rw (is_reference-IsBareOutcome observation_id seen fs h plain) refl

references_in-IsBareOutcome :
    (file : LedgerFile) (observation_id : Json) (seen refs : List Json)
    → All IsBareOutcome refs
    → references_in file observation_id seen refs ≡ ok ([], seen)
unfolding references_in IsBareOutcome
references_in-IsBareOutcome file observation_id seen [] h = refl
references_in-IsBareOutcome file observation_id seen (r ∷ refs) ((fs, e, absent, plain), hs) =
    ap (λ v. references_in file observation_id seen (v ∷ refs)) e
    ∙ skipped_reference file observation_id seen refs fs absent plain
    ∙ references_in-IsBareOutcome file observation_id seen refs hs

references_of-IsBare :
    (file : LedgerFile) (audit_id : String) (observation_id : Json) (seen es : List Json)
    → All IsBare es
    → references_of file audit_id observation_id seen es ≡ ok []
unfolding references_of IsBare
references_of-IsBare file audit_id observation_id seen [] h = refl
references_of-IsBare file audit_id observation_id seen (e ∷ es) ((refs, reads, bare), hs) =
    elim (Bool-cases
      (field_is "entry_type" "worker_execution" e && field_is "audit_id" audit_id e)) [
        | inl q ↦
            rw
              (
                q,
                reads,
                references_in-IsBareOutcome file observation_id seen refs bare,
                references_of-IsBare file audit_id observation_id seen es hs,
              )
              refl
        | inr q ↦ rw q (references_of-IsBare file audit_id observation_id seen es hs)
      ]

-- On every ledger that start_run and record_worker_execution write, the search for the issues that
-- refer to an observation finds none: the outcomes in the entries have lost the key
-- evidence_observation_ids that it reads.
pub find_issues_finds_none :
    (detect : String → String → String) (file : LedgerFile) (audit_id : String)
    (observation_id : Json)
    → Recorded detect file
    → find_issues_referencing_observation audit_id observation_id file ≡ ok []
unfolding find_issues_referencing_observation
find_issues_finds_none detect file audit_id observation_id recorded =
    let sound = Recorded-IsSound detect file recorded in
    rw (reads_file detect file sound)
      (references_of-IsBare file audit_id observation_id [] sound.entries sound.bare)

-- Neither issues nor findings, and nothing complete about a promoted candidate.
unfoldable pub IsLost : CandidateLineage → Type 0
IsLost l =
    (l.issue_lineage ≡ [])
    × (l.finding_lineage ≡ [])
    × (l.candidate_trace.outcome ≡ resolved_promoted → l.complete ≡ false)

module _ (detect : String → String → String) (file : LedgerFile) (audit_id : String) where
  observation_lineage_of-IsLost :
      (trace : CandidateTrace) (observation : Json) (l : CandidateLineage)
      → Recorded detect file
      → observation_lineage_of audit_id trace observation file ≡ ok l
      → IsLost l
  unfolding observation_lineage_of IsLost
  observation_lineage_of-IsLost trace observation l recorded h =
      let (event, _, h1) = >>=-eq-ok (get_default "event" (obj end) observation) _ h in
      let (id, _, h2) = >>=-eq-ok (get "entity_id" event) _ h1 in
      elim (Bool-cases (is_falsy id)) [
        | inl q ↦ subst IsLost (ok_inj (rw q at h2)) (refl, refl, λ _. refl)
        | inr q ↦
            let h3 = rw (q, find_issues_finds_none detect file audit_id id recorded) at h2 in
            subst IsLost (ok_inj h3) (refl, refl, λ _. refl)
      ]

  promoted-IsLost :
      (trace : CandidateTrace) (l : CandidateLineage)
      → Recorded detect file
      → lineage_of audit_id (record trace { outcome = resolved_promoted }) file ≡ ok l
      → IsLost l
  unfolding lineage_of IsLost
  promoted-IsLost trace l recorded =
      elim trace.promoted_observation_trace
        as (λ p.
          lineage_of audit_id
              (record trace { outcome = resolved_promoted; promoted_observation_trace = p }) file
            ≡ ok l
          → IsLost l) [
            | none ↦ λ h. subst IsLost (ok_inj h) (refl, refl, λ e. refl)
            | some o ↦ λ h. observation_lineage_of-IsLost _ o l recorded h
          ]

  lineage_of-IsLost :
      (trace : CandidateTrace) (l : CandidateLineage)
      → Recorded detect file
      → lineage_of audit_id trace file ≡ ok l
      → IsLost l
  unfolding lineage_of IsLost
  lineage_of-IsLost trace l recorded =
      elim trace.outcome
        as (λ o. lineage_of audit_id (record trace { outcome = o }) file ≡ ok l → IsLost l) [
          | unknown ↦ λ h. subst IsLost (ok_inj h) (refl, refl, λ e. cc)
          | proposed ↦ λ h. subst IsLost (ok_inj h) (refl, refl, λ e. cc)
          | routed_to_verify ↦ λ h. subst IsLost (ok_inj h) (refl, refl, λ e. cc)
          | rejected ↦ λ h. subst IsLost (ok_inj h) (refl, refl, λ e. cc)
          | resolved_promoted ↦ promoted-IsLost trace l recorded
        ]

-- On every ledger that start_run and record_worker_execution write, the lineage of a candidate names
-- no issue and no finding, and that of a promoted candidate is not complete.
pub resolve_candidate_lineage-IsLost :
    (detect : String → String → String) (file : LedgerFile) (audit_id candidate_id : String)
    (lineage : CandidateLineage)
    → Recorded detect file
    → resolve_candidate_lineage audit_id candidate_id file ≡ ok lineage
    → IsLost lineage
unfolding resolve_candidate_lineage
resolve_candidate_lineage-IsLost detect file audit_id candidate_id lineage recorded h =
    let (trace, _, rest) = >>=-eq-ok (resolve_candidate_trace audit_id candidate_id file) _ h in
    lineage_of-IsLost detect file audit_id trace lineage recorded rest
