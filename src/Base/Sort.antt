-- ===== src/Base/Sort.antt =====
-- `Array.sort` by a number, which is stable: elements of equal keys keep their order.
use Prim.Native.Nat.{ℕ, ◌+◌, ◌≤◌}
use mathlib.Core.Bool.{Bool, true, false}
use mathlib.Core.List.{List, [], ◌∷◌}
use mathlib.Core.Logic.{inl, inr}
use mathlib.Core.Path.{◌≡◌, refl, ap, ◌∙◌}
use native.Mathlib.Omega.{arith}
use sorostream_sdk.Base.Tests.{nat_eq, ◌==◌, leb, if◌then◌else◌, if_elim, Bool-cases}
use sorostream_sdk.Base.Lists.{All, All-weaken, filter, sum_of}

-- `a` may stand before `b`, in ascending or in descending order.
abbrev pub goes_before : Bool → ℕ → ℕ → Bool
goes_before true a b = leb b a
goes_before false a b = leb a b

abbrev pub InOrder : Bool → ℕ → ℕ → Type 0
InOrder true a b = b ≤ a
InOrder false a b = a ≤ b

before_order : (d : Bool) (a b : ℕ) → goes_before d a b ≡ true → InOrder d a b
before_order true a b h = ground arith
before_order false a b h = ground arith

after_order : (d : Bool) (a b : ℕ) → goes_before d a b ≡ false → InOrder d b a × ((a ≡ b) → ⊥)
after_order true a b h = (ground arith, (λ e. ground arith))
after_order false a b h = (ground arith, (λ e. ground arith))

InOrder-trans : (d : Bool) (a b c : ℕ) → InOrder d a b → InOrder d b c → InOrder d a c
InOrder-trans true a b c h k = omega arith
InOrder-trans false a b c h k = omega arith

module _ {A : Type 0} (key : A → ℕ) (descending : Bool) where
  unfoldable pub insert_on : A → List A → List A
  insert_on x [] = x ∷ []
  insert_on x (y ∷ ys) =
      let later = insert_on x ys in
      if goes_before descending (key x) (key y) then x ∷ y ∷ ys else y ∷ later

  unfoldable pub sort_on : List A → List A
  unfolding insert_on
  sort_on [] = []
  sort_on (x ∷ xs) = insert_on x (sort_on xs)

  abbrev pub IsSorted : List A → Type 0
  IsSorted [] = Unit
  IsSorted (x ∷ xs) = All (λ y. InOrder descending (key x) (key y)) xs × IsSorted xs

  insert_on-All : (P : A → Type 0) (x : A) (ys : List A) → P x → All P ys → All P (insert_on x ys)
  unfolding insert_on
  insert_on-All P x [] p h = (p, tt)
  insert_on-All P x (y ∷ ys) p (q, h) = elim (Bool-cases (goes_before descending (key x) (key y))) [
    | inl first ↦ rw first (p, (q, h))
    | inr later ↦ rw later (q, insert_on-All P x ys p h)
  ]

  pub sort_on-All : (P : A → Type 0) (xs : List A) → All P xs → All P (sort_on xs)
  unfolding sort_on
  sort_on-All P [] h = tt
  sort_on-All P (x ∷ xs) (p, h) = insert_on-All P x (sort_on xs) p (sort_on-All P xs h)

  -- The elements of one key are the same, in the same order.
  filter-insert_on :
      (k : ℕ) (x : A) (ys : List A)
      → filter (λ a. key a == k) (insert_on x ys) ≡ filter (λ a. key a == k) (x ∷ ys)
  unfolding insert_on filter
  filter-insert_on k x [] = refl
  filter-insert_on k x (y ∷ ys) = elim (Bool-cases (goes_before descending (key x) (key y))) [
    | inl first ↦ rw first refl
    | inr later ↦
        let (order, apart) = after_order descending (key x) (key y) later in
        let rest = filter-insert_on k x ys in rw later (ground (arith, rest, apart))
  ]

  All-InOrder :
      (x y : A) (ys : List A)
      → InOrder descending (key x) (key y)
      → All (λ z. InOrder descending (key y) (key z)) ys
      → All (λ z. InOrder descending (key x) (key z)) ys
  All-InOrder x y ys h = All-weaken _ _ (λ z k. InOrder-trans descending _ _ _ h k) ys

  insert_on-IsSorted : (x : A) (ys : List A) → IsSorted ys → IsSorted (insert_on x ys)
  unfolding insert_on
  insert_on-IsSorted x [] h = (tt, tt)
  insert_on-IsSorted x (y ∷ ys) (p, h) =
      elim (Bool-cases (goes_before descending (key x) (key y))) [
        | inl first ↦
            let q = before_order descending (key x) (key y) first in
            rw first ((q, All-InOrder x y ys q p), (p, h))
        | inr later ↦
            let (order, apart) = after_order descending (key x) (key y) later in
            rw later (
              insert_on-All (λ z. InOrder descending (key y) (key z)) x ys order p,
              insert_on-IsSorted x ys h,
            )
      ]

  pub sort_on-IsSorted : (xs : List A) → IsSorted (sort_on xs)
  unfolding sort_on
  sort_on-IsSorted [] = tt
  sort_on-IsSorted (x ∷ xs) = insert_on-IsSorted x (sort_on xs) (sort_on-IsSorted xs)

  pub filter-sort_on :
      (k : ℕ) (xs : List A) → filter (λ a. key a == k) (sort_on xs) ≡ filter (λ a. key a == k) xs
  unfolding sort_on filter
  filter-sort_on k [] = refl
  filter-sort_on k (x ∷ xs) =
      filter-insert_on k x (sort_on xs)
      ∙ ap (λ rest. if key x == k then x ∷ rest else rest) (filter-sort_on k xs)

  -- A sum over the elements is that of the sorted ones.
  module _ (f : A → ℕ) where
    sum_of-insert_on : (x : A) (ys : List A) → sum_of f (insert_on x ys) ≡ f x + sum_of f ys
    unfolding insert_on
    sum_of-insert_on x [] = refl
    sum_of-insert_on x (y ∷ ys) =
        if_elim (λ l. sum_of f l ≡ f x + sum_of f (y ∷ ys)) (goes_before descending (key x) (key y))
          (λ first. refl) (λ later. omega (arith, sum_of-insert_on x ys))

    pub sum_of-sort_on : (xs : List A) → sum_of f (sort_on xs) ≡ sum_of f xs
    unfolding sort_on
    sum_of-sort_on [] = refl
    sum_of-sort_on (x ∷ xs) = omega (arith, sum_of-insert_on x (sort_on xs), sum_of-sort_on xs)
