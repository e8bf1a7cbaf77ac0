-- ===== src/RunLedger/Numbered.antt =====
-- The sequences of the entries of a run ledger count them.
use deterministic_audit_runt.Prelude.{
  ℕ, suc, ◌+◌, ◌≡◌, refl, some, List, [], ◌∷◌, ◌++◌, ap, length, arith, ◌≤◌,
}
use deterministic_audit_runt.Prelude.Int.{ℤ, pos}
use deterministic_audit_runt.Json.{Json, str, int}
use deterministic_audit_runt.RunLedger.{
  field_of, sequences, max_of, next_sequence, entry_id, max_int,
}
use mathlib.Core.Path.{subst}
use deterministic_audit_runt.RunLedger.File.{max_int}

-- The entry has this number as its sequence and in its id.
unfoldable pub IsNumber : ℕ → Json → Type 0
IsNumber n e =
    (field_of "sequence" e ≡ some (int (pos n)))
    × (field_of "entry_id" e ≡ some (str (entry_id (pos n))))

unfoldable pub IsNumbered : ℕ → List Json → Type 0
unfolding IsNumber
IsNumbered n [] = Unit
IsNumbered n (e ∷ es) = IsNumber n e × IsNumbered (suc n) es

pub IsNumbered-append :
    (n : ℕ) (es : List Json) (e : Json)
    → IsNumbered n es
    → IsNumber (n + length es) e
    → IsNumbered n (es ++ e ∷ [])
unfolding IsNumbered
IsNumbered-append n [] e h k = (subst (λ m. IsNumber m e) (omega arith) k, tt)
IsNumbered-append n (d ∷ es) e (h, hs) k =
    (h, IsNumbered-append (suc n) es e hs (subst (λ m. IsNumber m e) (omega arith) k))

sequences-number :
    (e : Json) (es : List Json) {n : ℤ}
    → field_of "sequence" e ≡ some (int n)
    → sequences (e ∷ es) ≡ n ∷ sequences es
unfolding sequences
sequences-number e es h = rw h refl

max_int_pos : (a b : ℕ) → a ≤ b → max_int (pos a) (pos b) ≡ pos b
max_int_pos a b h = ground arith

max_of_numbered :
    (k : ℕ) (es : List Json)
    → IsNumbered (suc k) es
    → max_of (pos k ∷ sequences es) ≡ pos (k + length es)
unfolding max_of sequences IsNumbered IsNumber
max_of_numbered k [] h = ap pos (omega arith)
max_of_numbered k (e ∷ es) ((h, _), hs) = rw (h, max_of_numbered (suc k) es hs) (ground arith)

-- The next sequence is one more than the number of entries.
pub next_sequence-IsNumbered :
    (es : List Json) → IsNumbered 1 es → next_sequence es ≡ pos (suc (length es))
unfolding next_sequence max_of sequences IsNumbered IsNumber
next_sequence-IsNumbered [] h = refl
next_sequence-IsNumbered (e ∷ es) ((h, _), hs) =
    rw (sequences-number e es h, max_of_numbered 1 es hs) (ap pos (omega arith))
