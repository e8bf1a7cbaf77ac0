-- ===== src/Prelude/Lists.antt =====
-- Lists measured by native numbers.
use Prim.Native.Nat.{ℕ, suc, ◌+◌}
use mathlib.Core.Path.{◌≡◌, refl, sym, subst}
use mathlib.Core.Logic.{◌⊎◌, inl, inr, ◌≢◌}
use mathlib.Core.Option.{Option, none, some}
use mathlib.Core.Bool.{Bool, true, false}
use mathlib.Core.List.{List, [], ◌∷◌, ◌++◌, Memᴰ}
use deterministic_audit_runt.Prelude.Tests.{Bool-cases, if◌then◌else◌}
use native.Mathlib.Omega.{arith}

module _ {ℓ} {A : Type ℓ} where
  abbrev pub length : List A → ℕ
  length [] = 0
  length (x ∷ xs) = suc (length xs)

  abbrev pub is_empty : List A → Bool
  is_empty [] = true
  is_empty (x ∷ xs) = false

  pub length-append : (xs ys : List A) → length (xs ++ ys) ≡ length xs + length ys
  length-append [] ys = omega arith
  length-append (x ∷ xs) ys = omega (arith, length-append xs ys)

  -- Each element has the property.
  abbrev pub All {κ} : (A → Type κ) → List A → Type κ
  All Holds [] = Unit
  All Holds (a ∷ cs) = Holds a × All Holds cs

  pub All-append {κ} :
      (Holds : A → Type κ) (cs bs : List A) → All Holds cs → All Holds bs → All Holds (cs ++ bs)
  All-append Holds [] bs none_of rest = rest
  All-append Holds (a ∷ cs) bs (first_of, others) rest =
      (first_of, All-append Holds cs bs others rest)

  pub All-map {κ ι} :
      {Given : A → Type κ} {Holds : A → Type ι}
      → ((a : A) → Given a → Holds a)
      → (cs : List A) → All Given cs
      → All Holds cs
  All-map f [] h = tt
  All-map f (a ∷ cs) (h, hs) = (f a h, All-map f cs hs)

module _ {ℓ} {A : Type ℓ} where
  -- The first element that passes the test: a loop that returns it.
  unfoldable pub first : (A → Bool) → List A → Option A
  first p [] = none
  first p (x ∷ xs) = let later = first p xs in if p x then some x else later

  pub first-cases :
      (p : A → Bool) (xs : List A)
      → ((x : A) × (first p xs ≡ some x) × Memᴰ x xs × (p x ≡ true))
        ⊎ (first p xs ≡ none) × All (λ x. p x ≡ false) xs
  unfolding first
  first-cases p [] = inr (refl, tt)
  first-cases p (x ∷ xs) = elim (Bool-cases (p x)) [
    | inl h ↦ inl (x, rw h, Memᴰ.head refl, h)
    | inr h ↦ elim (first-cases p xs) [
      | inl (y, e, m, q) ↦ inl (y, rw h e, Memᴰ.tail m, q)
      | inr (e, all) ↦ inr (rw h e, (h, all))
    ]
  ]

  pub All-Memᴰ {κ} : (P : A → Type κ) {x : A} (xs : List A) → All P xs → Memᴰ x xs → P x
  All-Memᴰ P [] h m = elim m [ ]
  All-Memᴰ P (x ∷ xs) h (Memᴰ.head e) = subst P (sym e) h.0
  All-Memᴰ P (x ∷ xs) h (Memᴰ.tail m) = All-Memᴰ P xs h.1 m

pub cons_ne_nil {ℓ} : {A : Type ℓ} {x : A} {xs : List A} → x ∷ xs ≢ []
cons_ne_nil h = cc
