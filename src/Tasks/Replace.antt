-- ===== src/Tasks/Replace.antt =====
-- The replacing loops of `_normalize_target_value`: they end, and the second one makes no empty part.
use Prim.Native.Char.{Char}
use deterministic_audit_runt.Prelude.{
  ℕ, zero, suc, ◌≤◌, ◌<◌, String, ◌≡◌, refl, Bool, true, false, ◌&&◌, ◌||◌, arith,
}
use deterministic_audit_runt.Tasks.Text.{
  replace_double, has_double, replace_dotted, has_dotted, repeat_while, is_slash, is_dot, size,
}

-- A loop that shortens the text while its test holds ends with the test false, on fuel for each
-- character.
pub repeat_while_ends :
    (test : String → Bool) (step : String → String)
    → ((s : String) → test s ≡ true → size (step s) < size s)
    → ((s : String) → size s ≡ 0 → test s ≡ false)
    → (fuel : ℕ) (s : String) → size s ≤ fuel
    → test (repeat_while fuel test step s) ≡ false
unfolding repeat_while
repeat_while_ends test step shrinks ends zero s h = ends s (omega arith)
repeat_while_ends test step shrinks ends (suc fuel) s h =
    ground (arith, shrinks s, repeat_while_ends test step shrinks ends fuel (step s))

replace_double-le : (s : String) → size (replace_double s) ≤ size s
unfolding replace_double
replace_double-le String.[] = omega arith
replace_double-le (String.◌∷◌ c String.[]) = omega arith
replace_double-le (String.◌∷◌ c (String.◌∷◌ d s)) =
    ground (arith, replace_double-le s, replace_double-le (String.◌∷◌ d s))

pub replace_double-lt : (s : String) → has_double s ≡ true → size (replace_double s) < size s
unfolding replace_double has_double
replace_double-lt String.[] h = cc
replace_double-lt (String.◌∷◌ c String.[]) h = cc
replace_double-lt (String.◌∷◌ c (String.◌∷◌ d s)) h =
    ground (arith, replace_double-le s, replace_double-lt (String.◌∷◌ d s))

replace_dotted-le : (s : String) → size (replace_dotted s) ≤ size s
unfolding replace_dotted
replace_dotted-le String.[] = omega arith
replace_dotted-le (String.◌∷◌ c String.[]) = omega arith
replace_dotted-le (String.◌∷◌ c (String.◌∷◌ d String.[])) = omega arith
replace_dotted-le (String.◌∷◌ c (String.◌∷◌ d (String.◌∷◌ e s))) =
    ground (arith, replace_dotted-le s, replace_dotted-le (String.◌∷◌ d (String.◌∷◌ e s)))

pub replace_dotted-lt : (s : String) → has_dotted s ≡ true → size (replace_dotted s) < size s
unfolding replace_dotted has_dotted
replace_dotted-lt String.[] h = cc
replace_dotted-lt (String.◌∷◌ c String.[]) h = cc
replace_dotted-lt (String.◌∷◌ c (String.◌∷◌ d String.[])) h = cc
replace_dotted-lt (String.◌∷◌ c (String.◌∷◌ d (String.◌∷◌ e s))) h =
    ground (arith, replace_dotted-le s, replace_dotted-lt (String.◌∷◌ d (String.◌∷◌ e s)))

-- `text.startswith("/")` and `text.startswith("./")`
abbrev pub starts_slash : String → Bool
starts_slash String.[] = false
starts_slash (String.◌∷◌ c s) = is_slash c

abbrev pub starts_dot : String → Bool
starts_dot String.[] = false
starts_dot (String.◌∷◌ c s) = is_dot c && starts_slash s

pub has_double-cons :
    (c : Char) (s : String)
    → has_double (String.◌∷◌ c s) ≡ (is_slash c && starts_slash s || has_double s)
unfolding has_double
has_double-cons c String.[] = ground arith
has_double-cons c (String.◌∷◌ d s) = refl

pub has_dotted-cons :
    (c : Char) (s : String)
    → has_dotted (String.◌∷◌ c s) ≡ (is_slash c && starts_dot s || has_dotted s)
unfolding has_dotted
has_dotted-cons c String.[] = ground arith
has_dotted-cons c (String.◌∷◌ d String.[]) = ground arith
has_dotted-cons c (String.◌∷◌ d (String.◌∷◌ e s)) = ground arith

starts_slash-replace_dotted : (s : String) → starts_slash (replace_dotted s) ≡ starts_slash s
unfolding replace_dotted
starts_slash-replace_dotted String.[] = refl
starts_slash-replace_dotted (String.◌∷◌ c String.[]) = refl
starts_slash-replace_dotted (String.◌∷◌ c (String.◌∷◌ d String.[])) = refl
starts_slash-replace_dotted (String.◌∷◌ c (String.◌∷◌ d (String.◌∷◌ e s))) = refl

-- Taking "." parts out makes no empty part.
pub has_double-replace_dotted :
    (s : String) → has_double s ≡ false → has_double (replace_dotted s) ≡ false
unfolding replace_dotted
has_double-replace_dotted String.[] h = h
has_double-replace_dotted (String.◌∷◌ c String.[]) h = h
has_double-replace_dotted (String.◌∷◌ c (String.◌∷◌ d String.[])) h = h
has_double-replace_dotted (String.◌∷◌ c (String.◌∷◌ d (String.◌∷◌ e s))) h = ground (
  arith,
  has_double-cons c (String.◌∷◌ d (String.◌∷◌ e s)),
  has_double-cons d (String.◌∷◌ e s),
  has_double-cons e s,
  has_double-cons c (replace_dotted s),
  has_double-cons c (replace_dotted (String.◌∷◌ d (String.◌∷◌ e s))),
  starts_slash-replace_dotted s,
  starts_slash-replace_dotted (String.◌∷◌ d (String.◌∷◌ e s)),
  has_double-replace_dotted s,
  has_double-replace_dotted (String.◌∷◌ d (String.◌∷◌ e s)),
)

-- A test that a step keeps false stays false through the loop.
pub repeat_while_keeps :
    (bad test : String → Bool) (step : String → String)
    → ((s : String) → bad s ≡ false → bad (step s) ≡ false)
    → (fuel : ℕ) (s : String) → bad s ≡ false
    → bad (repeat_while fuel test step s) ≡ false
unfolding repeat_while
repeat_while_keeps bad test step keeps zero s h = h
repeat_while_keeps bad test step keeps (suc fuel) s h =
    ground (arith, keeps s, repeat_while_keeps bad test step keeps fuel (step s))
