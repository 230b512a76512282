-- ===== src/Base/Dict.antt =====
-- A JavaScript `Map` as the list of its entries in insertion order: `set` on a key that is there
-- keeps its place, on a new key it appends.
use Prim.Native.Nat.{ℕ, ◌+◌, ◌≤◌}
use mathlib.Core.Bool.{Bool, true, false}
use mathlib.Core.Logic.{◌≢◌, inl, inr}
use mathlib.Core.List.{List, [], ◌∷◌, ◌++◌}
use mathlib.Core.Option.{Option, none, some}
use mathlib.Core.Path.{◌≡◌, refl, sym, ◌∙◌, subst}
use native.Mathlib.Omega.{arith}
use sorostream_sdk.Base.Tests.{Eq, ◌==◌, if◌then◌else◌, Bool-cases}
use sorostream_sdk.Base.Lists.{length, All}

abbrev pub Dict {ℓ} : Type ℓ → Type ℓ → Type ℓ
Dict K V = List (K × V)

module _ {ℓ} {K V : Type ℓ} ⦃e : Eq K⦄ where
  unfoldable pub get : K → Dict K V → Option V
  get k [] = none
  get k ((j, v) ∷ m) = if j == k then some v else get k m

  unfoldable pub has : K → Dict K V → Bool
  has k [] = false
  has k ((j, v) ∷ m) = if j == k then true else has k m

  unfoldable pub set : K → V → Dict K V → Dict K V
  set k v [] = (k, v) ∷ []
  set k v ((j, w) ∷ m) = if j == k then (j, v) ∷ m else (j, w) ∷ set k v m

  -- `Map.delete`; a key stands in a map once.
  unfoldable pub delete : K → Dict K V → Dict K V
  delete k [] = []
  delete k ((j, w) ∷ m) = if j == k then m else (j, w) ∷ delete k m

  pub get-set :
      (k q : K) (v : V) (m : Dict K V) → get q (set k v m) ≡ (if k == q then some v else get q m)
  unfolding get set
  get-set k q v [] = refl
  get-set k q v ((j, w) ∷ m) =
      ground (arith, get-set k q v m, e.beq_iff j k, e.beq_iff k q, e.beq_iff j q)

  pub get-set_self : (k : K) (v : V) (m : Dict K V) → get k (set k v m) ≡ some v
  get-set_self k v m = ground (arith, get-set k k v m, e.beq_iff k k)

  pub get-set_ne : (k q : K) (v : V) (m : Dict K V) → q ≢ k → get q (set k v m) ≡ get q m
  get-set_ne k q v m h = ground (arith, get-set k q v m, e.beq_iff k q)

  pub get-set-none : (k q : K) (v : V) (m : Dict K V) → get q (set k v m) ≡ none → get q m ≡ none
  get-set-none k q v m h = ground (arith, get-set k q v m)

  -- A key that is there is no other's place.
  pub get-set-known :
      (k q : K) (v : V) (m : Dict K V) → get k m ≢ none → get q m ≡ none → get q (set k v m) ≡ none
  get-set-known k q v m there h =
      get-set_ne k q v m (λ same. there (subst (λ x. get x m ≡ none) same h)) ∙ h

  pub get-set_there : (k : K) (v : V) (m : Dict K V) → get k (set k v m) ≢ none
  get-set_there k v m h = ground (arith, get-set_self k v m)

  pub get-delete_ne : (k q : K) (m : Dict K V) → q ≢ k → get q (delete k m) ≡ get q m
  unfolding get delete
  get-delete_ne k q [] h = refl
  get-delete_ne k q ((j, w) ∷ m) h =
      ground (arith, get-delete_ne k q m h, e.beq_iff j k, e.beq_iff j q)

  -- The keys are pairwise different.
  abbrev pub Absent : K → Dict K V → Type ℓ
  Absent k m = All (λ p. p.0 ≢ k) m

  abbrev pub IsKeyed : Dict K V → Type ℓ
  IsKeyed [] = Unit
  IsKeyed ((k, v) ∷ m) = Absent k m × IsKeyed m

  pub Absent-delete : (k q : K) (m : Dict K V) → Absent q m → Absent q (delete k m)
  unfolding delete
  Absent-delete k q [] h = tt
  Absent-delete k q ((j, w) ∷ m) h = ground (arith, Absent-delete k q m h.1)

  pub delete-IsKeyed : (k : K) (m : Dict K V) → IsKeyed m → IsKeyed (delete k m)
  unfolding delete
  delete-IsKeyed k [] h = tt
  delete-IsKeyed k ((j, w) ∷ m) h = ground (arith, delete-IsKeyed k m h.1, Absent-delete k j m h.0)

  pub Absent-delete_self : (k : K) (m : Dict K V) → IsKeyed m → Absent k (delete k m)
  unfolding delete
  Absent-delete_self k [] h = tt
  Absent-delete_self k ((j, w) ∷ m) h = elim (Bool-cases (j == k)) [
    | inl same ↦ rw same (subst (λ q. Absent q m) ((e.beq_iff j k).0 same) h.0)
    | inr other ↦ rw other ((λ p. absurd (cc ((e.beq_iff j k).1 p))), Absent-delete_self k m h.1)
  ]

  -- A new key goes to the end.
  pub set-append : (k : K) (v : V) (m : Dict K V) → Absent k m → set k v m ≡ m ++ (k, v) ∷ []
  unfolding set
  set-append k v [] h = refl
  set-append k v ((j, w) ∷ m) h = ground (arith, set-append k v m h.1, e.beq_iff j k)

  pub Absent-set : (k q : K) (v : V) (m : Dict K V) → q ≢ k → Absent q m → Absent q (set k v m)
  unfolding set
  Absent-set k q v [] n h = ((λ p. n (sym p)), tt)
  Absent-set k q v ((j, w) ∷ m) n h = ground (arith, Absent-set k q v m n h.1)

  pub set-IsKeyed : (k : K) (v : V) (m : Dict K V) → IsKeyed m → IsKeyed (set k v m)
  unfolding set
  set-IsKeyed k v [] h = (tt, tt)
  set-IsKeyed k v ((j, w) ∷ m) h =
      ground (arith, set-IsKeyed k v m h.1, Absent-set k j v m, e.beq_iff j k)

  pub get-Absent : (k : K) (m : Dict K V) → Absent k m → get k m ≡ none
  unfolding get
  get-Absent k [] h = refl
  get-Absent k ((j, w) ∷ m) h = ground (arith, get-Absent k m h.1, e.beq_iff j k)

  pub Absent-of_get : (k : K) (m : Dict K V) → get k m ≡ none → Absent k m
  unfolding get
  Absent-of_get k [] h = tt
  Absent-of_get k ((j, w) ∷ m) h = ground (arith, Absent-of_get k m, e.beq_iff j k)

  pub has-eq-false : (k : K) (m : Dict K V) → has k m ≡ false → Absent k m
  unfolding has
  has-eq-false k [] h = tt
  has-eq-false k ((j, w) ∷ m) h = ground (arith, has-eq-false k m, e.beq_iff j k)

  pub has-none : (k : K) (m : Dict K V) → get k m ≡ none → has k m ≡ false
  unfolding has get
  has-none k [] h = refl
  has-none k ((j, w) ∷ m) h = ground (arith, has-none k m)

  pub has-get : (k : K) (m : Dict K V) (v : V) → get k m ≡ some v → has k m ≡ true
  unfolding has get
  has-get k [] v h = cc
  has-get k ((j, w) ∷ m) v h = ground (arith, has-get k m v)

  pub get-delete_self : (k : K) (m : Dict K V) → IsKeyed m → get k (delete k m) ≡ none
  get-delete_self k m h = get-Absent k (delete k m) (Absent-delete_self k m h)

  pub length-delete-has :
      (k : K) (m : Dict K V) → has k m ≡ true → length (delete k m) + 1 ≡ length m
  unfolding has delete
  length-delete-has k [] h = cc
  length-delete-has k ((j, w) ∷ m) h = ground (arith, length-delete-has k m)

  pub length-delete-le : (k : K) (m : Dict K V) → length (delete k m) ≤ length m
  unfolding delete
  length-delete-le k [] = omega arith
  length-delete-le k ((j, w) ∷ m) = ground (arith, length-delete-le k m)

  pub delete-Absent : (k : K) (m : Dict K V) → Absent k m → delete k m ≡ m
  unfolding delete
  delete-Absent k [] h = refl
  delete-Absent k ((j, w) ∷ m) h = ground (arith, delete-Absent k m h.1, e.beq_iff j k)

  pub get-append : (k : K) (m n : Dict K V) → Absent k m → get k (m ++ n) ≡ get k n
  unfolding get
  get-append k [] n h = refl
  get-append k ((j, w) ∷ m) n h = ground (arith, get-append k m n h.1, e.beq_iff j k)

  pub length-set-Absent :
      (k : K) (v : V) (m : Dict K V) → Absent k m → length (set k v m) ≡ length m + 1
  unfolding set
  length-set-Absent k v [] h = omega arith
  length-set-Absent k v ((j, w) ∷ m) h = ground (arith, length-set-Absent k v m h.1, e.beq_iff j k)

-- The sum of a measure over the values.
abbrev pub total {ℓ} : {K V : Type ℓ} → (V → ℕ) → Dict K V → ℕ
total f [] = 0
total f ((k, v) ∷ m) = f v + total f m

abbrev pub measure {ℓ} : {V : Type ℓ} → (V → ℕ) → Option V → ℕ
measure f none = 0
measure f (some v) = f v

module _ {ℓ} {K V : Type ℓ} ⦃e : Eq K⦄ (f : V → ℕ) where
  pub total-set :
      (k : K) (v : V) (m : Dict K V) → total f (set k v m) + measure f (get k m) ≡ total f m + f v
  unfolding set get
  total-set k v [] = omega arith
  total-set k v ((j, w) ∷ m) = elim (Bool-cases (j == k)) [
    | inl same ↦ rw same (omega arith)
    | inr other ↦ rw other (omega (arith, total-set k v m))
  ]

module _ {ℓ κ} {K V : Type ℓ} ⦃e : Eq K⦄ (P : K × V → Type κ) where
  -- What holds of the entries and of a new one holds after `set`.
  pub set-All : (k : K) (v : V) (m : Dict K V) → P (k, v) → All P m → All P (set k v m)
  unfolding set
  set-All k v [] p h = (p, tt)
  set-All k v ((j, w) ∷ m) p (q, h) = elim (Bool-cases (j == k)) [
    | inl same ↦ rw same (subst (λ i. P (i, v)) (sym ((e.beq_iff j k).0 same)) p, h)
    | inr other ↦ rw other (q, set-All k v m p h)
  ]

  pub get-All : (k : K) (v : V) (m : Dict K V) → get k m ≡ some v → All P m → P (k, v)
  unfolding get
  get-All k v [] found h = absurd (ground (arith, found))
  get-All k v ((j, w) ∷ m) found (q, h) = elim (Bool-cases (j == k)) [
    | inl same ↦
        let it : w ≡ v = ground (arith, found, same) in
        subst (λ i. P (i, v)) ((e.beq_iff j k).0 same) (subst (λ x. P (j, x)) it q)
    | inr other ↦ get-All k v m (ground (arith, found, other)) h
  ]
