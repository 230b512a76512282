-- ===== src/Projection/Times.antt =====
-- The times at which `simulateStream` takes its snapshots.
use sorostream_sdk.Base.{
  ℕ, zero, suc, ◌+◌, ◌≤◌, ◌<◌, ◌≡◌, refl, ap, ◌∙◌, inl, inr, true, false, ◌||◌, List, [], ◌∷◌, map,
  nat_eq, ◌==◌, ltb, leb, if◌then◌else◌, if_elim, contains, contains-append, Bool-cases, subst, All,
  All-append, arith,
}
use sorostream_sdk.Base.Sort.{insert_on, sort_on, sort_on-All}
use sorostream_sdk.Projection.{add, add_times}

contains-map :
    {B : Type 0} (f : ℕ → B) (key : B → ℕ)
    → ((t : ℕ) → key (f t) ≡ t)
    → (ts : List ℕ) (q : ℕ) → contains ts q ≡ true
    → contains (map key (map f ts)) q ≡ true
unfolding contains
contains-map f key same [] q h = h
contains-map f key same (t ∷ ts) q h = rw (same t) (ground (arith, h, contains-map f key same ts q))

abbrev pub by_time : ℕ → ℕ
by_time t = t

contains-insert_on :
    (t : ℕ) (ts : List ℕ) (q : ℕ)
    → contains (insert_on by_time false t ts) q ≡ (t == q || contains ts q)
unfolding insert_on contains
contains-insert_on t [] q = refl
contains-insert_on t (u ∷ us) q =
    if_elim (λ l. contains l q ≡ (t == q || contains (u ∷ us) q)) (leb t u) (λ first. refl)
      (λ later. ground (arith, contains-insert_on t us q))

contains-sort_on : (ts : List ℕ) (q : ℕ) → contains (sort_on by_time false ts) q ≡ contains ts q
unfolding sort_on contains
contains-sort_on [] q = refl
contains-sort_on (t ∷ ts) q =
    contains-insert_on t (sort_on by_time false ts) q
    ∙ ap (λ b. t == q || b) (contains-sort_on ts q)

contains-add : (ts : List ℕ) (t q : ℕ) → contains (add ts t) q ≡ (t == q || contains ts q)
contains-add ts t q = elim (Bool-cases (contains ts t)) [
  | inl old ↦ rw old (elim (Bool-cases (t == q)) [
    | inl same ↦ let e : q ≡ t = ground (arith, same) in rw same (ap (contains ts) e ∙ old)
    | inr other ↦ rw other refl
  ])
  | inr new ↦ rw new (contains-append ts t q)
]

module _ (offset : ℕ → ℕ) (start_time end_time : ℕ) where
  -- A round of the loop.
  abbrev round : ℕ → List ℕ → List ℕ
  round i ts = let t = start_time + offset i in if ltb t end_time then add ts t else ts

  round-kept : (i : ℕ) (ts : List ℕ) (q : ℕ) → contains ts q ≡ true → contains (round i ts) q ≡ true
  round-kept i ts q h =
      if_elim (λ l. contains l q ≡ true) (ltb (start_time + offset i) end_time)
        (λ early. ground (arith, h, contains-add ts (start_time + offset i) q)) (λ late. h)

  add_times-kept :
      (left i : ℕ) (ts : List ℕ) (q : ℕ)
      → contains ts q ≡ true
      → contains (add_times offset start_time end_time left i ts) q ≡ true
  unfolding add_times
  add_times-kept zero i ts q h = h
  add_times-kept (suc left) i ts q h =
      add_times-kept left (i + 1) (round i ts) q (round-kept i ts q h)

  round-shown :
      (i : ℕ) (ts : List ℕ)
      → start_time + offset i < end_time
      → contains (round i ts) (start_time + offset i) ≡ true
  round-shown i ts h =
      if_elim (λ l. contains l (start_time + offset i) ≡ true)
        (ltb (start_time + offset i) end_time)
        (λ early. ground (arith, contains-add ts (start_time + offset i) (start_time + offset i)))
        (λ late. absurd (ground (arith, late, h)))

  add_times-shown :
      (left i j : ℕ) (ts : List ℕ)
      → i ≤ j
      → j < i + left
      → start_time + offset j < end_time
      → contains (add_times offset start_time end_time left i ts) (start_time + offset j) ≡ true
  unfolding add_times
  add_times-shown zero i j ts h k early = absurd (omega (arith, h, k))
  add_times-shown (suc left) i j ts h k early = elim (Bool-cases (i == j)) [
    | inl same ↦
        let e : i ≡ j = ground (arith, same) in
        add_times-kept left (i + 1) (round i ts) (start_time + offset j) (
          subst
            (λ n.
              start_time + offset n < end_time
              → contains (round i ts) (start_time + offset n) ≡ true)
            e (round-shown i ts) early)
    | inr other ↦
        add_times-shown left (i + 1) j (round i ts) (ground (arith, other, h)) (omega (arith, k))
          early
  ]

  add-All : (P : ℕ → Type 0) (ts : List ℕ) (t : ℕ) → P t → All P ts → All P (add ts t)
  add-All P ts t p h =
      if_elim (All P) (contains ts t) (λ old. h) (λ new. All-append P ts (t ∷ []) h (p, tt))

  -- A time from the start to the end.
  abbrev pub IsInside : ℕ → Type 0
  IsInside t = (start_time ≤ t) × (t ≤ end_time)

  add_times-IsInside :
      (left i : ℕ) (ts : List ℕ)
      → All IsInside ts
      → All IsInside (add_times offset start_time end_time left i ts)
  unfolding add_times
  add_times-IsInside zero i ts h = h
  add_times-IsInside (suc left) i ts h = add_times-IsInside left (i + 1) (round i ts) (
      if_elim (All IsInside) (ltb (start_time + offset i) end_time)
        (λ early.
          add-All IsInside ts (start_time + offset i) (omega arith, ground (arith, early)) h)
        (λ late. h))

  -- The times, as the code takes them.
  abbrev pub times_of : ℕ → List ℕ
  times_of rounds =
      sort_on by_time false
        (add (add_times offset start_time end_time rounds 1 (start_time ∷ [])) end_time)

  -- The start, the end, and each offset of the loop before the end are among the times of the
  -- snapshots, and all of these are from the start to the end.
  pub record Shows (rounds : ℕ) (shown : List ℕ) : Type 0 where
    pub first : contains shown start_time ≡ true
    pub last : contains shown end_time ≡ true
    pub between :
        (i : ℕ)
        → 1 ≤ i
        → i ≤ rounds
        → start_time + offset i < end_time
        → contains shown (start_time + offset i) ≡ true

  listed :
      (rounds q : ℕ)
      → (end_time == q
          || contains (add_times offset start_time end_time rounds 1 (start_time ∷ [])) q)
        ≡ true
      → contains (times_of rounds) q ≡ true
  listed rounds q h =
      contains-sort_on _ q
      ∙ contains-add (add_times offset start_time end_time rounds 1 (start_time ∷ [])) end_time q
      ∙ h

  pub times_of-Shows :
      {B : Type 0} (f : ℕ → B) (key : B → ℕ) (rounds : ℕ)
      → ((t : ℕ) → key (f t) ≡ t)
      → Shows rounds (map key (map f (times_of rounds)))
  unfolding contains
  times_of-Shows f key rounds same = record {
    first = contains-map f key same (times_of rounds) start_time (
        listed rounds start_time
          (ground (arith, add_times-kept rounds 1 (start_time ∷ []) start_time (ground arith))));
    last =
        contains-map f key same (times_of rounds) end_time (listed rounds end_time (ground arith));
    between = λ i h k early. contains-map f key same (times_of rounds) (start_time + offset i) (
        listed rounds (start_time + offset i) (
          ground (arith, add_times-shown rounds 1 i (start_time ∷ []) h (omega (arith, k)) early)));
  }

  pub times_of-IsInside : (rounds : ℕ) → start_time ≤ end_time → All IsInside (times_of rounds)
  times_of-IsInside rounds h = sort_on-All by_time false IsInside _ (
      add-All IsInside (add_times offset start_time end_time rounds 1 (start_time ∷ [])) end_time
        (h, omega arith) (add_times-IsInside rounds 1 (start_time ∷ []) ((omega arith, h), tt)))
