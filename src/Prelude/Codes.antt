-- ===== src/Prelude/Codes.antt =====
-- Texts by their code points, for the tests that look inside one: `str.lower` on ASCII letters (a
-- letter outside ASCII is left alone) and `part in text`.
use Prim.Native.Nat.{ℕ, ◌+◌}
use Prim.Native.Char.{code}
use Prim.Native.String.{String}
use mathlib.Core.Bool.{Bool, true, false, ◌&&◌, ◌||◌}
use mathlib.Core.List.{List, [], ◌∷◌}
use deterministic_audit_runt.Prelude.{leb, num_eq, if◌then◌else◌}

abbrev pub codes : String → List ℕ
codes String.[] = []
codes (String.◌∷◌ c s) = code c ∷ codes s

abbrev pub lower_code : ℕ → ℕ
lower_code c = if leb b'A' c && leb c b'Z' then c + 32 else c

-- `text.lower()`
unfoldable pub lower : String → List ℕ
lower String.[] = []
lower (String.◌∷◌ c s) = lower_code (code c) ∷ lower s

unfoldable pub starts : List ℕ → List ℕ → Bool
starts [] text = true
starts (c ∷ part) [] = false
starts (c ∷ part) (d ∷ text) = num_eq c d && starts part text

-- `part in text`
unfoldable pub contains : List ℕ → List ℕ → Bool
unfolding starts
contains part [] = starts part []
contains part (d ∷ text) = starts part (d ∷ text) || contains part text

-- `any(part in text for part in parts)`, as the loops with a `return` in them decide it.
unfoldable pub contains_any : List String → List ℕ → Bool
unfolding contains
contains_any [] text = false
contains_any (part ∷ parts) text = contains (codes part) text || contains_any parts text
