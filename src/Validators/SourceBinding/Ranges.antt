-- ===== src/Validators/SourceBinding/Ranges.antt =====
-- What runtime/validators/source_binding.py guarantees of the line ranges of an event.
use deterministic_audit_runt.Prelude.{
  ◌≡◌, ◌≢◌, refl, ℕ, ◌+◌, String, List, [], ◌∷◌, ◌++◌, none, some, false, Bool-cases, inl, inr, All,
  Option, ◌∙◌, cons_ne_nil,
}
use deterministic_audit_runt.Prelude.Int.{ℤ, ltb_ℤ}
use deterministic_audit_runt.Errors.{ok, >>=-eq-ok, ok_inj}
use deterministic_audit_runt.Json.{Json, item, get, is_obj, is_null}
use deterministic_audit_runt.Validators.Issue.{ValidationIssue}
use deterministic_audit_runt.Validators.SourceBinding.{
  as_int, column_issues, snapshot_issues, range_issues, validate_source_ref, validate_source_refs,
}
use mathlib.Core.Path.{ap}

-- The reference has a line range from one integer to another that is not before it.
pub record HasOrderedRange (source_ref : Json) : Type 0 where
  pub line_range : Json
  pub start : Json
  pub last : Json
  pub first_line : ℤ
  pub last_line : ℤ
  pub line_range_eq : get "line_range" source_ref ≡ ok line_range
  pub start_eq : get "start" line_range ≡ ok start
  pub last_eq : get "end" line_range ≡ ok last
  pub first_line_eq : as_int start ≡ some first_line
  pub last_line_eq : as_int last ≡ some last_line
  pub ordered : ltb_ℤ last_line first_line ≡ false

no_issue : {i : ValidationIssue} → ok (i ∷ []) ≢ ok []
no_issue h = cc

append-eq-nil : (xs ys : List ValidationIssue) → xs ++ ys ≡ [] → (xs ≡ []) × (ys ≡ [])
append-eq-nil [] ys h = (refl, h)
append-eq-nil (x ∷ xs) ys h = cc

abbrev AreOrdered : Option ℤ → Option ℤ → Type 0
AreOrdered start last = (a : ℤ) × (b : ℤ) × (start ≡ some a) × (last ≡ some b) × (ltb_ℤ b a ≡ false)

module _ (event source_ref : Json) (base : List String) (n : ℕ) where
  range_issues-AreOrdered :
      (start last : Option ℤ)
      → range_issues event source_ref base n start last ≡ ok []
      → AreOrdered start last
  unfolding range_issues
  range_issues-AreOrdered (some a) (some b) h =
      let (inferred, e1, h1) = >>=-eq-ok (get "range_inferred" source_ref) _ h in
      let (columns, e2, h2) = >>=-eq-ok (column_issues source_ref _) _ h1 in
      let (snapshot, e3, h3) = >>=-eq-ok (snapshot_issues event source_ref _) _ h2 in
      elim (Bool-cases (ltb_ℤ b a)) [
        | inl wrong ↦ absurd (cons_ne_nil (rw wrong at (ok_inj h3)))
        | inr right ↦ (a, b, refl, refl, right)
      ]
  range_issues-AreOrdered (some a) none h = cc
  range_issues-AreOrdered none last h = cc

validate_source_ref-HasOrderedRange :
    (event : Json) (n : ℕ) (source_ref : Json)
    → validate_source_ref event n source_ref ≡ ok []
    → HasOrderedRange source_ref
unfolding validate_source_ref
validate_source_ref-HasOrderedRange event n source_ref h =
    let (entity_type, e0, h0) = >>=-eq-ok (item "entity_type" event) _ h in
    let (line_range, e1, h1) = >>=-eq-ok (get "line_range" source_ref) _ h0 in
    elim (Bool-cases (is_obj line_range)) [
      | inr missing ↦ absurd (no_issue (rw missing at h1))
      | inl there ↦
          let (start, e2, h2) = >>=-eq-ok (get "start" line_range) _ (rw there at h1) in
          let (last, e3, h3) = >>=-eq-ok (get "end" line_range) _ h2 in
          elim (Bool-cases (is_null start)) [
            | inl missing ↦ absurd (no_issue (rw missing at h3))
            | inr has_start ↦ elim (Bool-cases (is_null last)) [
              | inl missing ↦ absurd (no_issue (rw (has_start, missing) at h3))
              | inr has_last ↦
                  let (a, b, q, r, right) =
                    range_issues-AreOrdered event source_ref _ n (as_int start) (as_int last)
                      (rw (has_start, has_last) at h3) in
                  record {
                    line_range = line_range;
                    start = start;
                    last = last;
                    first_line = a;
                    last_line = b;
                    line_range_eq = e1;
                    start_eq = e2;
                    last_eq = e3;
                    first_line_eq = q;
                    last_line_eq = r;
                    ordered = right;
                  }
            ]
          ]
    ]

-- When no reference of an event has an issue, each one has a line range whose two ends are integers,
-- and the last line is not before the first.
pub validate_source_refs-HasOrderedRange :
    (event : Json) (n : ℕ) (source_refs : List Json)
    → validate_source_refs event n source_refs ≡ ok []
    → All HasOrderedRange source_refs
unfolding validate_source_refs
validate_source_refs-HasOrderedRange event n [] h = tt
validate_source_refs-HasOrderedRange event n (source_ref ∷ source_refs) h =
    let (here, e1, h1) = >>=-eq-ok (validate_source_ref event n source_ref) _ h in
    let (later, e2, h2) = >>=-eq-ok (validate_source_refs event (n + 1) source_refs) _ h1 in
    let (nothing, no_more) = append-eq-nil here later (ok_inj h2) in
    (
      validate_source_ref-HasOrderedRange event n source_ref (e1 ∙ ap ok nothing),
      validate_source_refs-HasOrderedRange event (n + 1) source_refs (e2 ∙ ap ok no_more),
    )
