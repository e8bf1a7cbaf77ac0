-- ===== src/Prelude/Decimal.antt =====
-- Natural numbers in decimal: `str(n)`, `f"{n:04d}"` and `int(text)`, with the digits of ASCII.
use Prim.Native.Nat.{ℕ, zero, suc, ◌+◌, ◌-◌, ◌*◌, ◌/◌, ◌%◌, ◌≤◌, ◌<◌}
use Prim.Native.Char.{Char, code}
use Prim.Native.String.{String}
use mathlib.Core.Path.{◌≡◌, refl, ap, ◌∙◌}
use mathlib.Core.Bool.{Bool, true, ◌&&◌}
use mathlib.Core.Logic.{inl, inr}
use native.Mathlib.Omega.{arith}
use deterministic_audit_runt.Prelude.{ltb, leb, if◌then◌else◌, Bool-cases}

unfoldable pub digit : ℕ → Char
digit zero = "0"
digit (suc zero) = "1"
digit (suc (suc zero)) = "2"
digit (suc (suc (suc zero))) = "3"
digit (suc (suc (suc (suc zero)))) = "4"
digit (suc (suc (suc (suc (suc zero))))) = "5"
digit (suc (suc (suc (suc (suc (suc zero)))))) = "6"
digit (suc (suc (suc (suc (suc (suc (suc zero))))))) = "7"
digit (suc (suc (suc (suc (suc (suc (suc (suc zero)))))))) = "8"
digit _ = "9"

-- `text + c`
unfoldable pub snoc : String → Char → String
snoc String.[] c = String.◌∷◌ c String.[]
snoc (String.◌∷◌ d s) c = String.◌∷◌ d (snoc s c)

unfoldable pub digits : ℕ → ℕ → String
unfolding digit snoc
digits zero n = String.[]
digits (suc fuel) n =
    let front = digits fuel (n / 10) in
    if ltb n 10 then String.◌∷◌ (digit n) String.[] else snoc front (digit (n % 10))

-- A number has at most as many digits as it counts, and one.
unfoldable pub decimal : ℕ → String
unfolding digits
decimal n = digits (suc n) n

unfoldable pub text_size : String → ℕ
text_size String.[] = 0
text_size (String.◌∷◌ c s) = suc (text_size s)

unfoldable pub zeros : ℕ → String → String
zeros zero s = s
zeros (suc n) s = String.◌∷◌ "0" (zeros n s)

-- `f"{n:0{width}d}"`
unfoldable pub padded : ℕ → ℕ → String
unfolding decimal zeros text_size
padded width n = zeros (width - text_size (decimal n)) (decimal n)

abbrev pub is_digit : Char → Bool
is_digit c = leb b'0' (code c) && leb (code c) b'9'

unfoldable pub all_digits : String → Bool
all_digits String.[] = true
all_digits (String.◌∷◌ c s) = is_digit c && all_digits s

-- `text.isdigit()`
unfoldable pub is_decimal : String → Bool
unfolding all_digits text_size
is_decimal s = leb 1 (text_size s) && all_digits s

-- `int(text)` on digits, behind those that make `n`.
unfoldable pub number_from : ℕ → String → ℕ
number_from n String.[] = n
number_from n (String.◌∷◌ c s) = number_from (n * 10 + (code c - b'0')) s

number_from-append :
    (n : ℕ) (s : String) (c : Char)
    → number_from n (snoc s c) ≡ number_from n s * 10 + (code c - b'0')
unfolding number_from snoc
number_from-append n String.[] c = refl
number_from-append n (String.◌∷◌ d s) c = number_from-append (n * 10 + (code d - b'0')) s c

digit_code : (n : ℕ) → n < 10 → code (digit n) ≡ n + 48
unfolding digit
digit_code zero h = refl
digit_code (suc zero) h = refl
digit_code (suc (suc zero)) h = refl
digit_code (suc (suc (suc zero))) h = refl
digit_code (suc (suc (suc (suc zero)))) h = refl
digit_code (suc (suc (suc (suc (suc zero))))) h = refl
digit_code (suc (suc (suc (suc (suc (suc zero)))))) h = refl
digit_code (suc (suc (suc (suc (suc (suc (suc zero))))))) h = refl
digit_code (suc (suc (suc (suc (suc (suc (suc (suc zero)))))))) h = refl
digit_code (suc (suc (suc (suc (suc (suc (suc (suc (suc zero))))))))) h = refl
digit_code (suc (suc (suc (suc (suc (suc (suc (suc (suc (suc n)))))))))) h = absurd (omega arith)

digit-is_digit : (n : ℕ) → n < 10 → is_digit (digit n) ≡ true
digit-is_digit n h = ground (arith, digit_code n h)

all_digits-append : (s : String) (c : Char) → all_digits (snoc s c) ≡ (all_digits s && is_digit c)
unfolding all_digits snoc
all_digits-append String.[] c = ground arith
all_digits-append (String.◌∷◌ d s) c = ground (arith, all_digits-append s c)

digits-number : (fuel n : ℕ) → n < fuel → number_from 0 (digits fuel n) ≡ n
unfolding digits number_from
digits-number zero n h = absurd (omega arith)
digits-number (suc fuel) n h = elim (Bool-cases (ltb n 10)) [
  | inl q ↦ rw q (ground (arith, digit_code n))
  | inr q ↦ rw q (
      ground (
        arith,
        number_from-append 0 (digits fuel (n / 10)) (digit (n % 10)),
        digits-number fuel (n / 10),
        digit_code (n % 10),
      ))
]

digits-all_digits : (fuel n : ℕ) → n < fuel → all_digits (digits fuel n) ≡ true
unfolding digits all_digits
digits-all_digits zero n h = absurd (omega arith)
digits-all_digits (suc fuel) n h = elim (Bool-cases (ltb n 10)) [
  | inl q ↦ rw q (ground (arith, digit-is_digit n))
  | inr q ↦ rw q (
      ground (
        arith,
        all_digits-append (digits fuel (n / 10)) (digit (n % 10)),
        digits-all_digits fuel (n / 10),
        digit-is_digit (n % 10),
      ))
]

zeros-number : (k : ℕ) (s : String) → number_from 0 (zeros k s) ≡ number_from 0 s
unfolding zeros number_from
zeros-number zero s = refl
zeros-number (suc k) s = zeros-number k s

zeros-all_digits : (k : ℕ) (s : String) → all_digits (zeros k s) ≡ all_digits s
unfolding zeros all_digits
zeros-all_digits zero s = refl
zeros-all_digits (suc k) s = zeros-all_digits k s

-- A padded number reads as itself.
pub padded-number : (width n : ℕ) → number_from 0 (padded width n) ≡ n
unfolding padded decimal
padded-number width n =
    zeros-number (width - text_size (decimal n)) (decimal n) ∙ digits-number (suc n) n (omega arith)

pub padded-all_digits : (width n : ℕ) → all_digits (padded width n) ≡ true
unfolding padded decimal
padded-all_digits width n =
    zeros-all_digits (width - text_size (decimal n)) (decimal n)
    ∙ digits-all_digits (suc n) n (omega arith)

snoc-size : (s : String) (c : Char) → text_size (snoc s c) ≡ suc (text_size s)
unfolding snoc text_size
snoc-size String.[] c = refl
snoc-size (String.◌∷◌ d s) c = ap suc (snoc-size s c)

digits-size : (fuel n : ℕ) → 1 ≤ fuel → 1 ≤ text_size (digits fuel n)
unfolding digits text_size
digits-size zero n h = absurd (omega arith)
digits-size (suc fuel) n h = ground (arith, snoc-size (digits fuel (n / 10)) (digit (n % 10)))

zeros-size : (k : ℕ) (s : String) → text_size (zeros k s) ≡ k + text_size s
unfolding zeros text_size
zeros-size zero s = omega arith
zeros-size (suc k) s = omega (arith, zeros-size k s)

pub padded-is_decimal : (width n : ℕ) → is_decimal (padded width n) ≡ true
unfolding is_decimal padded decimal
padded-is_decimal width n = ground (
  arith,
  zeros-size (width - text_size (digits (suc n) n)) (digits (suc n) n),
  digits-size (suc n) n,
  zeros-all_digits (width - text_size (digits (suc n) n)) (digits (suc n) n),
  digits-all_digits (suc n) n,
)
