-- ===== src/Processing/Growth.antt =====
-- The ledger under the whole loop of runtime/processing.py.
use deterministic_audit_runt.Prelude.{
  ◌≡◌, refl, ℕ, ◌+◌, List, [], ◌∷◌, ◌++◌, All-append, length, arith, sym, ◌∙◌, append-nil,
  append_assoc, length-append,
}
use deterministic_audit_runt.Errors.{Result, ok, err, >>=-eq-ok, ok_inj}
use deterministic_audit_runt.Json.{Json}
use deterministic_audit_runt.Json.Canonical.{canonical}
use deterministic_audit_runt.EventStore.{LedgerFile, Line, value}
use deterministic_audit_runt.EventStore.Append.{IsClosed}
use deterministic_audit_runt.Redaction.{redact_event}
use deterministic_audit_runt.Redaction.Structure.{is_obj-canonical-redact_event}
use deterministic_audit_runt.Validators.Schema.Bindings.{validate_schema-IsBound, is_obj_of_IsBound}
use deterministic_audit_runt.Validators.Suite.Passed.{IsPassed}
use deterministic_audit_runt.Processing.{
  Runtime, Processed, process_candidate, process_from, proceed, count_accepted, accepted, rejected,
  EventVerdict,
}
use deterministic_audit_runt.Processing.Step.{
  Turn, raised, declined, persisted, process_candidate-Turn, with_line,
}
use mathlib.Core.Path.{ap, subst}
use deterministic_audit_runt.Processing.Types.{EventVerdict}

-- The outcomes are numbered from `n`, one for each candidate.
abbrev pub AreNumbered : ℕ → List Json → List Processed → Type 0
AreNumbered n [] [] = Unit
AreNumbered n (candidate ∷ candidates) (p ∷ ps) =
    (p.outcome.index ≡ n) × AreNumbered (n + 1) candidates ps
AreNumbered n _ _ = ⊥

-- The ledger has grown by `added`, one object for each accepted event.
pub record HasGrown (f g : LedgerFile) (ps : List Processed) : Type 0 where
  pub added : List Line
  pub lines_eq : g.lines ≡ f.lines ++ added
  pub count_eq : length added ≡ count_accepted ps
  pub closed : IsClosed g

-- What a validated event is written as is an object.
with_line-IsClosed :
    (runtime : Runtime) (n : ℕ) (candidate event : Json) (f : LedgerFile)
    → IsClosed f
    → IsPassed runtime.env event f
    → IsClosed (with_line runtime n candidate f event)
with_line-IsClosed runtime n candidate event f c p =
    let (e, bound) = validate_schema-IsBound runtime.env.error_paths event p.schema_passed in
    let object =
      is_obj-canonical-redact_event runtime.detect event (is_obj_of_IsBound event bound) in
    record {
      sound = record {
        lines_sound = All-append _ f.lines _ c.sound.lines_sound (object, tt);
        tail_sound = tt;
      };
      no_tail = refl;
    }

count_accepted-cons :
    (p : Processed) (ps : List Processed)
    → count_accepted (p ∷ ps) ≡ count_accepted (p ∷ []) + count_accepted ps
unfolding count_accepted
count_accepted-cons p ps = go p.outcome.outcome refl
  where
    go :
        (v : EventVerdict)
        → p.outcome.outcome ≡ v
        → count_accepted (p ∷ ps) ≡ count_accepted (p ∷ []) + count_accepted ps
    go accepted h = rw h (omega arith)
    go rejected h = rw h (omega arith)

count_of_verdict :
    (p : Processed)
    → ((p.outcome.outcome ≡ accepted) → count_accepted (p ∷ []) ≡ 1)
      × ((p.outcome.outcome ≡ rejected) → count_accepted (p ∷ []) ≡ 0)
unfolding count_accepted
count_of_verdict p = (λ h. rw h refl, λ h. rw h refl)

join :
    (p : Processed) (rest : List Processed) (f f1 g : LedgerFile)
    → HasGrown f f1 (p ∷ [])
    → HasGrown f1 g rest
    → HasGrown f g (p ∷ rest)
join p rest f f1 g a b = record {
  added = a.added ++ b.added;
  lines_eq =
      b.lines_eq ∙ ap (λ ls. ls ++ b.added) a.lines_eq ∙ append_assoc f.lines a.added b.added;
  count_eq =
      omega
        (arith, length-append a.added b.added, a.count_eq, b.count_eq, count_accepted-cons p rest);
  closed = b.closed;
}

module _ (runtime : Runtime) where
  turn-HasGrown :
      (n : ℕ) (candidate : Json) (f f1 : LedgerFile) (p : Processed)
      → IsClosed f
      → Turn runtime n candidate f (ok p, f1)
      → HasGrown f f1 (p ∷ []) × (p.outcome.index ≡ n)
  turn-HasGrown n candidate f f1 p c (raised e q) = cc
  turn-HasGrown n candidate f f1 p c (declined p' o i q) =
      let same_p = ok_inj (ap (λ x. x.0) q) in
      let same_file = ap (λ x. x.1) q in
      (
        record {
          added = [];
          lines_eq = ap (λ h. h.lines) same_file ∙ sym (append-nil f.lines);
          count_eq = sym ((count_of_verdict p).1 (ap (λ p. p.outcome.outcome) same_p ∙ o));
          closed = subst IsClosed (sym same_file) c;
        },
        ap (λ p. p.outcome.index) same_p ∙ i,
      )
  turn-HasGrown n candidate f f1 p c (persisted p' event o i prepared passed q) =
      let same_p = ok_inj (ap (λ x. x.0) q) in
      let same_file = ap (λ x. x.1) q in
      (
        record {
          added = value (canonical (redact_event runtime.detect event)) ∷ [];
          lines_eq = ap (λ h. h.lines) same_file;
          count_eq = sym ((count_of_verdict p).0 (ap (λ p. p.outcome.outcome) same_p ∙ o));
          closed =
              subst IsClosed (sym same_file)
                (with_line-IsClosed runtime n candidate event f c passed);
        },
        ap (λ p. p.outcome.index) same_p ∙ i,
      )

  advance :
      (n : ℕ) (candidate : Json) (candidates : List Json) (f g : LedgerFile) (ps : List Processed)
      (out : Result Processed × LedgerFile)
      → IsClosed f
      → Turn runtime n candidate f out
      → ((f1 : LedgerFile) (rest : List Processed)
          → IsClosed f1
          → process_from runtime (n + 1) candidates f1 ≡ (ok rest, g)
          → HasGrown f1 g rest × AreNumbered (n + 1) candidates rest)
      → proceed runtime out (process_from runtime (n + 1) candidates) ≡ (ok ps, g)
      → HasGrown f g ps × AreNumbered n (candidate ∷ candidates) ps
  advance n candidate candidates f g ps (err e, f1) c t ih h = cc
  advance n candidate candidates f g ps (ok p, f1) c t ih h =
      let (rest, e, q) =
        >>=-eq-ok (process_from runtime (n + 1) candidates f1).0 _ (ap (λ x. x.0) h) in
      let (grown, i) = turn-HasGrown n candidate f f1 p c t in
      let (more, numbered) = ih f1 rest grown.closed (
        ap (λ r. (r, (process_from runtime (n + 1) candidates f1).1)) e
        ∙ ap (λ x. (ok rest, x.1)) h) in
      subst (λ ps. HasGrown f g ps × AreNumbered n (candidate ∷ candidates) ps) (ok_inj q)
        (join p rest f f1 g grown more, (i, numbered))

  -- When the loop ends, the ledger has grown by one line for each accepted event, every earlier line
  -- is as it was, and there is one outcome for each candidate, in their order.
  pub process_from-HasGrown :
      (n : ℕ) (candidates : List Json) (f g : LedgerFile) (ps : List Processed)
      → IsClosed f
      → process_from runtime n candidates f ≡ (ok ps, g)
      → HasGrown f g ps × AreNumbered n candidates ps
  unfolding process_from count_accepted
  process_from-HasGrown n [] f g ps c h =
      let same_file = ap (λ x. x.1) h in
      let no_outcome = ok_inj (ap (λ x. x.0) h) in
      subst (λ ps. HasGrown f g ps × AreNumbered n [] ps) no_outcome
        (
          record {
            added = [];
            lines_eq = ap (λ h. h.lines) (sym same_file) ∙ sym (append-nil f.lines);
            count_eq = refl;
            closed = subst IsClosed same_file c;
          },
          tt,
        )
  process_from-HasGrown n (candidate ∷ candidates) f g ps c h =
      advance n candidate candidates f g ps (process_candidate runtime n candidate f) c
        (process_candidate-Turn runtime n candidate f c)
        (λ f1 rest. process_from-HasGrown (n + 1) candidates f1 g rest) h
