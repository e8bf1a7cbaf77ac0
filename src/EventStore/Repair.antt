-- ===== src/EventStore/Repair.antt =====
-- `_repair_trailing_partial_write` of runtime/event_store.py: what it keeps, cuts off and refuses.
use mathlib.Core.Path.{subst}
use deterministic_audit_runt.Prelude.{
  ◌≡◌, refl, sym, ◌∙◌, ◌≢◌, String, ◌⊎◌, inl, inr, Bool, true, false, Bool-cases, Option, none,
  some, List, [], ◌∷◌, ◌++◌, All, arith,
}
use deterministic_audit_runt.Errors.{Result, ok, err, store_error, ◌>>=◌, ok_inj}
use deterministic_audit_runt.EventStore.Ledger.{
  Line, LedgerFile, is_sound, has_tail, repair_lines, sound_tail, repair, after_repair,
  iter_stored_events, stored_from, all_lines,
}

abbrev pub AllSound : List Line → Type 0
AllSound = All (λ l. is_sound l ≡ true)

abbrev pub IsSoundTail : Option Line → Type 0
IsSoundTail none = Unit
IsSoundTail (some l) = is_sound l ≡ true

-- Each line is blank or an object, the unterminated one too.
pub record IsSound (f : LedgerFile) : Type 0 where
  pub lines_sound : AllSound f.lines
  pub tail_sound : IsSoundTail f.tail

-- How the loop over the lines can end, by the first line that is no object.
pub data Outcome (more : Bool) (ls : List Line) (r : Result (List Line)) : Type 0 where
  kept : AllSound ls → r ≡ ok ls → Outcome more ls r
  cut :
      (good : List Line) (bad : Line)
      → ls ≡ good ++ bad ∷ []
      → AllSound good
      → is_sound bad ≡ false
      → more ≡ false
      → r ≡ ok good
      → Outcome more ls r
  refused :
      (good : List Line) (bad : Line) (rest : List Line)
      → ls ≡ good ++ bad ∷ rest
      → AllSound good
      → is_sound bad ≡ false
      → (rest ≢ []) ⊎ (more ≡ true)
      → r ≡ err store_error
      → Outcome more ls r

Outcome-cons :
    (more : Bool) (l : Line) (ls : List Line) {r : Result (List Line)}
    → is_sound l ≡ true
    → Outcome more ls r
    → Outcome more (l ∷ ls) (r >>= λ rest. ok (l ∷ rest))
Outcome-cons more l ls s (kept a e) = kept (s, a) (rw e)
Outcome-cons more l ls s (cut good bad e a b m q) = cut (l ∷ good) bad (rw e) (s, a) b m (rw q)
Outcome-cons more l ls s (refused good bad rest e a b w q) =
    refused (l ∷ good) bad rest (rw e) (s, a) b w (rw q)

Outcome-bad :
    (more : Bool) (l : Line) (ls : List Line)
    → is_sound l ≡ false
    → Outcome more (l ∷ ls) (repair_lines more (l ∷ ls))
unfolding repair_lines
Outcome-bad false l [] b = cut [] l refl tt b refl (rw b)
Outcome-bad true l [] b = refused [] l [] refl tt b (inr refl) (rw b)
Outcome-bad more l (k ∷ ls) b = refused [] l (k ∷ ls) refl tt b (inl (λ e. cc)) (rw b)

repair_lines-Outcome : (more : Bool) (ls : List Line) → Outcome more ls (repair_lines more ls)
unfolding repair_lines
repair_lines-Outcome more [] = kept tt refl
repair_lines-Outcome more (l ∷ ls) = elim (Bool-cases (is_sound l)) [
  | inl s ↦ rw s (Outcome-cons more l ls s (repair_lines-Outcome more ls))
  | inr b ↦ Outcome-bad more l ls b
]

sound_tail-IsSoundTail : (t : Option Line) → IsSoundTail (sound_tail t)
sound_tail-IsSoundTail none = tt
sound_tail-IsSoundTail (some l) = elim (Bool-cases (is_sound l)) [
  | inl s ↦ rw s s
  | inr b ↦ rw b tt
]

sound_tail_of_IsSoundTail : (t : Option Line) → IsSoundTail t → sound_tail t ≡ t
sound_tail_of_IsSoundTail none h = refl
sound_tail_of_IsSoundTail (some l) h = rw h

-- What the repair makes of a file, in the three cases.
pub data Repaired (f : LedgerFile) : Type 0 where
  kept :
      AllSound f.lines
      → repair f ≡ ok (record { lines = f.lines; tail = sound_tail f.tail })
      → Repaired f
  cut :
      (good : List Line) (bad : Line)
      → f.lines ≡ good ++ bad ∷ []
      → f.tail ≡ none
      → AllSound good
      → is_sound bad ≡ false
      → repair f ≡ ok (record { lines = good; tail = none })
      → Repaired f
  refused :
      (good : List Line) (bad : Line) (rest : List Line)
      → f.lines ≡ good ++ bad ∷ rest
      → (rest ≢ []) ⊎ (f.tail ≢ none)
      → AllSound good
      → is_sound bad ≡ false
      → repair f ≡ err store_error
      → Repaired f

no_tail : (f : LedgerFile) → has_tail f ≡ false → f.tail ≡ none
no_tail f h = ground arith

a_tail : (f : LedgerFile) → has_tail f ≡ true → f.tail ≢ none
a_tail f h e = ground arith

-- The repair keeps the file if all terminated lines are blank or objects, and drops an unterminated
-- line that is neither; it drops one last terminated line that is neither if nothing follows; if
-- anything follows such a line it raises EventStoreError.
pub repair_cases : (f : LedgerFile) → Repaired f
unfolding repair
repair_cases f = go (repair_lines-Outcome (has_tail f) f.lines)
  where
    go : Outcome (has_tail f) f.lines (repair_lines (has_tail f) f.lines) → Repaired f
    go (kept a q) = kept a (rw q)
    go (cut good bad split a b m q) = cut good bad split (no_tail f m) a b (rw (q, no_tail f m))
    go (refused good bad rest split a b (inl w) q) = refused good bad rest split (inl w) a b (rw q)
    go (refused good bad rest split a b (inr w) q) =
        refused good bad rest split (inr (a_tail f w)) a b (rw q)

repair_lines_of_AllSound :
    (more : Bool) (ls : List Line) → AllSound ls → repair_lines more ls ≡ ok ls
unfolding repair_lines
repair_lines_of_AllSound more [] h = refl
repair_lines_of_AllSound more (l ∷ ls) h = rw (h.0, repair_lines_of_AllSound more ls h.1)

pub repair_of_IsSound : (f : LedgerFile) → IsSound f → repair f ≡ ok f
unfolding repair
repair_of_IsSound f h = rw (
  repair_lines_of_AllSound (has_tail f) f.lines h.lines_sound,
  sound_tail_of_IsSoundTail f.tail h.tail_sound,
)

pub repair-IsSound : (f f' : LedgerFile) → repair f ≡ ok f' → IsSound f'
repair-IsSound f f' e = elim (repair_cases f) [
  | kept a q ↦
      subst IsSound (ok_inj (sym q ∙ e))
        (record { lines_sound = a; tail_sound = sound_tail-IsSoundTail f.tail })
  | cut good bad split t a b q ↦
      subst IsSound (ok_inj (sym q ∙ e)) (record { lines_sound = a; tail_sound = tt })
  | refused good bad rest split w a b q ↦ cc
]

-- A repaired file is repaired to itself.
pub repair_idem : (f f' : LedgerFile) → repair f ≡ ok f' → repair f' ≡ ok f'
repair_idem f f' e = repair_of_IsSound f' (repair-IsSound f f' e)

pub after_repair_of_IsSound :
    {A : Type 0} (f : LedgerFile) (k : LedgerFile → Result A × LedgerFile)
    → IsSound f
    → after_repair f k ≡ k f
unfolding after_repair
after_repair_of_IsSound f k h = rw (after_repair, repair_of_IsSound f h)

pub iter_stored_events_of_IsSound :
    (a : Option String) (f : LedgerFile)
    → IsSound f
    → iter_stored_events a f ≡ (stored_from 1 a (all_lines f), f)
unfolding iter_stored_events
iter_stored_events_of_IsSound a f h = after_repair_of_IsSound f _ h
