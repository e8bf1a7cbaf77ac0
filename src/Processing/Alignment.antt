-- ===== src/Processing/Alignment.antt =====
-- `_validate_batch_audit_alignment` of runtime/processing.py for a batch of a requested audit.
use deterministic_audit_runt.Prelude.{
  ◌≡◌, refl, ◌↔◌, String, Bool, true, false, Bool-cases, inl, inr, Option, none, some, List, [],
  ◌∷◌, All, arith, ◌==◌, eq_iff, elem, if◌then◌else◌, sym, ◌∙◌, first, some_inj,
}
use deterministic_audit_runt.Errors.{Result, ok, err, processing_error}
use deterministic_audit_runt.Json.{Json}
use deterministic_audit_runt.Processing.{
  add_id, all_are, batch_audit_ids, read_string_field, validate_batch_audit_alignment,
}
use mathlib.Core.Bool.{false≢true}

all_are-elem : (a r : String) (ids : List String) → elem a ids ≡ true → all_are r ids ≡ true → a ≡ r
unfolding elem
all_are-elem a r [] h k = cc
all_are-elem a r (n ∷ ids) h k = ground (arith, eq_iff a n, eq_iff n r, all_are-elem a r ids)

-- An audit that is named is the requested one.
abbrev pub IsFor : String → Option String → Type 0
IsFor r o = (a : String) → o ≡ some a → a ≡ r

all_are-add_id→ :
    (r : String) (o : Option String) (ids : List String)
    → all_are r (add_id o ids) ≡ true
    → IsFor r o × (all_are r ids ≡ true)
all_are-add_id→ r none ids h = (λ a k. cc, h)
all_are-add_id→ r (some b) ids h = elim (Bool-cases (elem b ids)) [
  | inl known ↦
      let rest : all_are r ids ≡ true = rw known at h in
      (λ a k. sym (some_inj k) ∙ all_are-elem b r ids known rest, rest)
  | inr new ↦ elim (Bool-cases (b == r)) [
    | inl same ↦ (λ a k. sym (some_inj k) ∙ (eq_iff b r).0 same, rw (new, same) at h)
    | inr other ↦ absurd (false≢true (rw (new, other) at h))
  ]
]

←all_are-add_id :
    (r : String) (o : Option String) (ids : List String)
    → IsFor r o
    → all_are r ids ≡ true
    → all_are r (add_id o ids) ≡ true
←all_are-add_id r none ids f h = h
←all_are-add_id r (some b) ids f h = elim (Bool-cases (elem b ids)) [
  | inl known ↦ rw known h
  | inr new ↦ rw (new, (eq_iff b r).1 (f b refl)) h
]

-- Every candidate that names an audit by a text names the requested one.
abbrev pub AreFor : String → List Json → Type 0
AreFor r = All (λ c. IsFor r (read_string_field "audit_id" c))

batch_audit_ids→ :
    (r : String) (cs : List Json) → all_are r (batch_audit_ids cs) ≡ true → AreFor r cs
unfolding batch_audit_ids
batch_audit_ids→ r [] h = tt
batch_audit_ids→ r (c ∷ cs) h =
    let (first, rest) = all_are-add_id→ r (read_string_field "audit_id" c) (batch_audit_ids cs) h in
    (first, batch_audit_ids→ r cs rest)

←batch_audit_ids :
    (r : String) (cs : List Json) → AreFor r cs → all_are r (batch_audit_ids cs) ≡ true
unfolding batch_audit_ids
←batch_audit_ids r [] h = refl
←batch_audit_ids r (c ∷ cs) (first, rest) =
    ←all_are-add_id r (read_string_field "audit_id" c) (batch_audit_ids cs) first
      (←batch_audit_ids r cs rest)

aligned :
    (b : Bool)
    → ◌≡◌ {A = Result (Unit {0})} (if b then ok tt else err processing_error) (ok tt)
    → b ≡ true
aligned true h = refl
aligned false h = cc

-- For a requested audit the batch is let through exactly when each candidate that names an audit by a
-- text names that one; otherwise the call raises before anything is processed.
pub validate_batch_audit_alignment_iff :
    (r : String) (cs : List Json)
    → (validate_batch_audit_alignment (some r) cs ≡ ok tt) ↔ AreFor r cs
unfolding validate_batch_audit_alignment
validate_batch_audit_alignment_iff r cs = (
  λ h. batch_audit_ids→ r cs (aligned (all_are r (batch_audit_ids cs)) h),
  λ h. rw (validate_batch_audit_alignment, ←batch_audit_ids r cs h) refl,
)
