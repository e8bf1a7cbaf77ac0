-- ===== src/RunLedger/Digits.antt =====
-- `isdigit` and `int` of Python on one character, by its code point, in Unicode 14.0.0.
use deterministic_audit_runt.Prelude.{
  ℕ, suc, ◌+◌, ◌-◌, ◌*◌, String, Bool, true, false, ◌&&◌, ◌||◌, Option, none, some, List, [], ◌∷◌,
  ltb, leb, if◌then◌else◌,
}
use deterministic_audit_runt.Errors.{value_error, Result, err, ok}
use Prim.Native.Char.{code}

-- The code points of the zeros: each one begins ten decimal digits in their order.
abbrev decimal_zeros : List ℕ
decimal_zeros =
    48 ∷ 1632 ∷ 1776 ∷ 1984 ∷ 2406 ∷ 2534 ∷ 2662 ∷ 2790 ∷ 2918 ∷ 3046 ∷ 3174 ∷ 3302 ∷ 3430 ∷ 3558
    ∷ 3664 ∷ 3792 ∷ 3872 ∷ 4160 ∷ 4240 ∷ 6112 ∷ 6160 ∷ 6470 ∷ 6608 ∷ 6784 ∷ 6800 ∷ 6992 ∷ 7088
    ∷ 7232 ∷ 7248 ∷ 42528 ∷ 43216 ∷ 43264 ∷ 43472 ∷ 43504 ∷ 43600 ∷ 44016 ∷ 65296 ∷ 66720 ∷ 68912
    ∷ 69734 ∷ 69872 ∷ 69942 ∷ 70096 ∷ 70384 ∷ 70736 ∷ 70864 ∷ 71248 ∷ 71360 ∷ 71472 ∷ 71904 ∷ 72016
    ∷ 72784 ∷ 73040 ∷ 73120 ∷ 92768 ∷ 92864 ∷ 93008 ∷ 120782 ∷ 120792 ∷ 120802 ∷ 120812 ∷ 120822
    ∷ 123200 ∷ 123632 ∷ 125264 ∷ 130032 ∷ []

-- The ranges of the other characters that are digits for `isdigit`, and that `int` refuses.
abbrev other_digits : List (ℕ × ℕ)
other_digits =
    (178, 179)
    ∷ (185, 185)
    ∷ (4969, 4977)
    ∷ (6618, 6618)
    ∷ (8304, 8304)
    ∷ (8308, 8313)
    ∷ (8320, 8329)
    ∷ (9312, 9320)
    ∷ (9332, 9340)
    ∷ (9352, 9360)
    ∷ (9450, 9450)
    ∷ (9461, 9469)
    ∷ (9471, 9471)
    ∷ (10102, 10110)
    ∷ (10112, 10120)
    ∷ (10122, 10130)
    ∷ (68160, 68163)
    ∷ (69216, 69224)
    ∷ (69714, 69722)
    ∷ (127232, 127242)
    ∷ []

unfoldable pub value_after : List ℕ → ℕ → Option ℕ
value_after [] n = none
value_after (z ∷ zs) n =
    let rest = value_after zs n in if leb z n && ltb n (z + 10) then some (n - z) else rest

unfoldable pub decimal_value : ℕ → Option ℕ
unfolding value_after
decimal_value n = value_after decimal_zeros n

unfoldable pub in_ranges : List (ℕ × ℕ) → ℕ → Bool
in_ranges [] n = false
in_ranges ((a, b) ∷ rs) n = (leb a n && leb n b) || in_ranges rs n

abbrev pub has_value : Option ℕ → Bool
has_value none = false
has_value (some n) = true

-- The number of digits beyond which `int` and the printing of an int raise, as Python is configured by
-- default.
abbrev max_str_digits : ℕ
max_str_digits = 4300

unfoldable pub text_length : String → ℕ
text_length String.[] = 0
text_length (String.◌∷◌ c s) = suc (text_length s)

unfoldable pub is_too_long : String → Bool
unfolding text_length
is_too_long s = ltb max_str_digits (text_length s)

-- `isdigit`, for a text of at least one character.
unfoldable pub are_digits : String → Bool
unfolding decimal_value in_ranges
are_digits String.[] = true
are_digits (String.◌∷◌ c s) =
    (has_value (decimal_value (code c)) || in_ranges other_digits (code c)) && are_digits s

-- `int(text)` on such a text, behind the digits that make `n`.
unfoldable pub int_after : ℕ → String → Result ℕ
unfolding decimal_value
int_after n String.[] = ok n
int_after n (String.◌∷◌ c s) = elim (decimal_value (code c)) [
  | none ↦ err value_error
  | some d ↦ int_after (n * 10 + d) s
]
