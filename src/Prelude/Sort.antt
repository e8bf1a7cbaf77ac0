-- ===== src/Prelude/Sort.antt =====
-- `sorted(xs, key=...)`: a stable sort by a test that is a total order.
use mathlib.Core.Path.{◌≡◌, refl, subst}
use mathlib.Core.Bool.{Bool, true, false}
use mathlib.Core.Logic.{inl, inr}
use mathlib.Core.List.Permᴰ
use mathlib.Core.List.{List, [], ◌∷◌, Permᴰ, Memᴰ}
use deterministic_audit_runt.Prelude.{if◌then◌else◌, Bool-cases, All, All-map}

module _ {ℓ} {A : Type ℓ} (le : A → A → Bool) where
  -- Behind the elements that are smaller, before those that are equal.
  unfoldable pub insert : A → List A → List A
  insert x [] = x ∷ []
  insert x (y ∷ ys) = let rest = insert x ys in if le x y then x ∷ y ∷ ys else y ∷ rest

  unfoldable pub sort : List A → List A
  unfolding insert
  sort [] = []
  sort (x ∷ xs) = insert x (sort xs)

  abbrev pub BelowHead : A → List A → Type 0
  BelowHead x [] = Unit
  BelowHead x (y ∷ ys) = le x y ≡ true

  abbrev pub IsSorted : List A → Type 0
  IsSorted [] = Unit
  IsSorted (x ∷ xs) = BelowHead x xs × IsSorted xs

  pub insert-perm : (x : A) (xs : List A) → Permᴰ (insert x xs) (x ∷ xs)
  unfolding insert
  insert-perm x [] = Permᴰ.refl (x ∷ [])
  insert-perm x (y ∷ ys) = elim (Bool-cases (le x y)) [
    | inl q ↦ rw q (Permᴰ.refl (x ∷ y ∷ ys))
    | inr q ↦ rw q (Permᴰ.trans (Permᴰ.cons refl (insert-perm x ys)) (Permᴰ.swap refl refl))
  ]

  -- `sorted` loses nothing and makes nothing up.
  pub sort-perm : (xs : List A) → Permᴰ (sort xs) xs
  unfolding sort
  sort-perm [] = Permᴰ.nil
  sort-perm (x ∷ xs) = Permᴰ.trans (insert-perm x (sort xs)) (Permᴰ.cons refl (sort-perm xs))

  insert-All {κ} :
      (Holds : A → Type κ) (x : A) (xs : List A) → Holds x → All Holds xs → All Holds (insert x xs)
  unfolding insert
  insert-All Holds x [] h k = (h, tt)
  insert-All Holds x (y ∷ ys) h (k, ks) = elim (Bool-cases (le x y)) [
    | inl q ↦ rw q (h, (k, ks))
    | inr q ↦ rw q (k, insert-All Holds x ys h ks)
  ]

  pub sort-All {κ} : (Holds : A → Type κ) (xs : List A) → All Holds xs → All Holds (sort xs)
  unfolding sort
  sort-All Holds [] h = tt
  sort-All Holds (x ∷ xs) (h, hs) = insert-All Holds x (sort xs) h (sort-All Holds xs hs)

  -- What is sorted stays as it is.
  pub sort_of_sorted : (xs : List A) → IsSorted xs → sort xs ≡ xs
  unfolding sort insert
  sort_of_sorted [] h = refl
  sort_of_sorted (x ∷ []) h = refl
  sort_of_sorted (x ∷ y ∷ ys) (h, hs) = rw (sort_of_sorted (y ∷ ys) hs, h) refl

  module _ (total : (x y : A) → le x y ≡ false → le y x ≡ true) where
    below-insert :
        (y x : A) (ys : List A) → le y x ≡ true → BelowHead y ys → BelowHead y (insert x ys)
    unfolding insert
    below-insert y x [] h k = h
    below-insert y x (z ∷ zs) h k = elim (Bool-cases (le x z)) [ inl q ↦ rw q h | inr q ↦ rw q k ]

    insert-IsSorted : (x : A) (xs : List A) → IsSorted xs → IsSorted (insert x xs)
    unfolding insert
    insert-IsSorted x [] h = (tt, tt)
    insert-IsSorted x (y ∷ ys) (h, hs) = elim (Bool-cases (le x y)) [
      | inl q ↦ rw q (q, (h, hs))
      | inr q ↦ rw q (below-insert y x ys (total x y q) h, insert-IsSorted x ys hs)
    ]

    pub sort-IsSorted : (xs : List A) → IsSorted (sort xs)
    unfolding sort
    sort-IsSorted [] = tt
    sort-IsSorted (x ∷ xs) = insert-IsSorted x (sort xs) (sort-IsSorted xs)

  -- The head of a sorted list is below the others.
  pub head_is_least :
      ((x y z : A) → le x y ≡ true → le y z ≡ true → le x z ≡ true)
      → (x : A) (xs : List A) → IsSorted (x ∷ xs)
      → All (λ y. le x y ≡ true) xs
  head_is_least transitive x [] h = tt
  head_is_least transitive x (y ∷ ys) (h, hs) =
      (h, All-map (λ z. transitive x y z h) ys (head_is_least transitive y ys hs))

module _ {ℓ} {A : Type ℓ} where
  pub All-perm {κ} :
      (Holds : A → Type κ) {xs ys : List A} → Permᴰ xs ys → All Holds xs → All Holds ys
  All-perm Holds Permᴰ.nil h = tt
  All-perm Holds (Permᴰ.cons e p) (h, hs) = (subst Holds e h, All-perm Holds p hs)
  All-perm Holds (Permᴰ.swap e k) (h, (i, hs)) = (subst Holds k i, (subst Holds e h, hs))
  All-perm Holds (Permᴰ.trans p q) h = All-perm Holds q (All-perm Holds p h)

  -- Each element of a list is one of its elements.
  pub All_members : (xs : List A) → All (λ x. Memᴰ x xs) xs
  All_members [] = tt
  All_members (x ∷ xs) = (Memᴰ.head refl, All-map (λ y m. Memᴰ.tail m) xs (All_members xs))
