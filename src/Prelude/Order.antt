-- ===== src/Prelude/Order.antt =====
-- The order of texts is transitive.
use Prim.Native.Nat.{Ordering}
use text.Mathlib.TextPositions.{compare_refl}
use Prim.Native.String.{String}
use text.Mathlib.TextEquality.{path_by_compare}
use Prim.Native.String as Text
use mathlib.Core.Path.{◌≡◌, refl}
use mathlib.Core.Bool.{true}
use native.Mathlib.Omega.{arith}
use deterministic_audit_runt.Prelude.{text_le}

pub text_le_trans : (s t u : String) → text_le s t ≡ true → text_le t u ≡ true → text_le s u ≡ true
unfolding text_le
text_le_trans String.[] t String.[] h k = ground arith
text_le_trans String.[] t (String.◌∷◌ e u) h k = ground (arith, Text.compare.nil-cons e u)
text_le_trans (String.◌∷◌ c s) String.[] u h k = ground (arith, Text.compare.cons-nil c s)
text_le_trans (String.◌∷◌ c s) (String.◌∷◌ d t) String.[] h k =
    ground (arith, Text.compare.cons-nil d t)
text_le_trans (String.◌∷◌ c s) (String.◌∷◌ d t) (String.◌∷◌ e u) h k = ground (
  arith,
  text_le_trans s t u,
  Text.compare.cons-cons c d s t,
  Text.compare.cons-cons d e t u,
  Text.compare.cons-cons c e s u,
)

pub text_le_antisym : (s t : String) → text_le s t ≡ true → text_le t s ≡ true → s ≡ t
unfolding text_le
text_le_antisym s t h k = path_by_compare s t (ordered s t h k)
  where
    ordered :
        (s t : String) → text_le s t ≡ true → text_le t s ≡ true → Text.compare s t ≡ Ordering.eq
    ordered String.[] String.[] h k = Text.compare.nil-nil
    ordered String.[] (String.◌∷◌ d t) h k = ground (arith, Text.compare.cons-nil d t)
    ordered (String.◌∷◌ c s) String.[] h k = ground (arith, Text.compare.cons-nil c s)
    ordered (String.◌∷◌ c s) (String.◌∷◌ d t) h k =
        ground (arith, ordered s t, Text.compare.cons-cons c d s t, Text.compare.cons-cons d c t s)

pub text_le_refl : (s : String) → text_le s s ≡ true
unfolding text_le
text_le_refl s = rw (compare_refl s) refl
