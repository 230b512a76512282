-- ===== src/Cache/Invariant.antt =====
-- The cache never holds a key twice, nor more entries than its size.
use sorostream_sdk.Base.{
  ℕ, ◌+◌, ◌-◌, ◌≤◌, ◌≡◌, refl, inl, inr, Bool, not, Option, [], ◌∷◌, Eq, length, filter, Bool-cases,
  Option-cases, min, arith,
}
use sorostream_sdk.Base.Dict
use sorostream_sdk.Base.Dict.{Dict}
use sorostream_sdk.Cache.{
  Cache, CacheEntry, expired, get, set, prune, make_room, count_write, delete, clear, shrink,
  set_max_size, invalidate_pattern, set_ttl, tail_of, ttl_of,
}

module _ {K V : Type 0} ⦃e : Eq K⦄ where
  pub record IsValid (c : Cache K V) : Type 0 where
    pub keyed : Dict.IsKeyed c.store
    pub bounded : length c.store ≤ c.max_size
    pub positive : 1 ≤ c.max_size

  filter-Absent :
      (p : K × CacheEntry V → Bool) (k : K) (m : Dict K (CacheEntry V))
      → Dict.Absent k m
      → Dict.Absent k (filter p m)
  unfolding filter
  filter-Absent p k [] h = tt
  filter-Absent p k (x ∷ m) h = ground (arith, filter-Absent p k m h.1)

  filter-IsKeyed :
      (p : K × CacheEntry V → Bool) (m : Dict K (CacheEntry V))
      → Dict.IsKeyed m
      → Dict.IsKeyed (filter p m)
  unfolding filter
  filter-IsKeyed p [] h = tt
  filter-IsKeyed p (x ∷ m) h = ground (arith, filter-IsKeyed p m h.1, filter-Absent p x.0 m h.0)

  length-filter-le :
      (p : K × CacheEntry V → Bool) (m : Dict K (CacheEntry V)) → length (filter p m) ≤ length m
  unfolding filter
  length-filter-le p [] = omega arith
  length-filter-le p (x ∷ m) = ground (arith, length-filter-le p m)

  Absent-tail_of : (k : K) (m : Dict K (CacheEntry V)) → Dict.Absent k m → Dict.Absent k (tail_of m)
  Absent-tail_of k [] h = tt
  Absent-tail_of k (x ∷ m) h = h.1

  tail_of-IsKeyed : (m : Dict K (CacheEntry V)) → Dict.IsKeyed m → Dict.IsKeyed (tail_of m)
  tail_of-IsKeyed [] h = tt
  tail_of-IsKeyed (x ∷ m) h = h.1

  length-tail_of : (m : Dict K (CacheEntry V)) → length (tail_of m) ≡ length m - 1
  length-tail_of [] = omega arith
  length-tail_of (x ∷ m) = omega arith

  module _ (k : K) (size : ℕ) (m : Dict K (CacheEntry V)) (h : Dict.IsKeyed m) where
    pub Absent-make_room : Dict.Absent k (make_room k size m)
    unfolding make_room
    Absent-make_room = elim (Bool-cases (Dict.has k m)) [
      | inl there ↦ rw there (Dict.Absent-delete_self k m h)
      | inr new ↦ rw new (
          let absent = Dict.has-eq-false k m new in
          ground (arith, absent, Absent-tail_of k m absent))
    ]

    make_room-IsKeyed : Dict.IsKeyed (make_room k size m)
    unfolding make_room
    make_room-IsKeyed = ground (arith, Dict.delete-IsKeyed k m h, tail_of-IsKeyed m h)

    length-make_room : length m ≤ size → 1 ≤ size → length (make_room k size m) + 1 ≤ size
    unfolding make_room
    length-make_room l p = ground (arith, Dict.length-delete-has k m, length-tail_of m)

  count_write-store :
      (now : ℕ) (c : Cache K V)
      → IsValid c
      → IsValid (count_write now c) × ((count_write now c).max_size ≡ c.max_size)
  unfolding count_write
  count_write-store now c h = ground (
    arith,
    filter-IsKeyed (λ p. not (expired now p)) c.store h.keyed,
    length-filter-le (λ p. not (expired now p)) c.store,
  )

  set-IsValid :
      (now : ℕ) (k : K) (v : V) (ttl : Option ℕ) (c : Cache K V)
      → IsValid c
      → IsValid (set now k v ttl c)
  unfolding set
  set-IsValid now k v ttl c h =
      let (valid, same) = count_write-store now c h in
      let m = (count_write now c).store in
      let absent = Absent-make_room k c.max_size m valid.keyed in
      record {
        keyed =
            Dict.set-IsKeyed k _ (make_room k c.max_size m)
              (make_room-IsKeyed k c.max_size m valid.keyed);
        bounded = omega (
          arith,
          same,
          h.positive,
          valid.bounded,
          Dict.length-set-Absent k (record { value = v; expires_at = now + ttl_of c ttl })
              (make_room k c.max_size m) absent,
          length-make_room k c.max_size m valid.keyed,
        );
        positive = valid.positive;
      }

  get-IsValid : (now : ℕ) (k : K) (c : Cache K V) → IsValid c → IsValid (get now k c).0
  unfolding get
  get-IsValid now k c h = elim (Option-cases (Dict.get k c.store)) [
    | inl miss ↦ rw (miss, get) h
    | inr (entry, hit) ↦
        rw (hit, get)
          (ground (
            arith,
            h.keyed,
            Dict.delete-IsKeyed k c.store h.keyed,
            Dict.set-IsKeyed k entry (Dict.delete k c.store),
            Dict.length-delete-le k c.store,
            Dict.length-delete-has k c.store (Dict.has-get k c.store entry hit),
            Dict.length-set-Absent k entry (Dict.delete k c.store)
                (Dict.Absent-delete_self k c.store h.keyed),
          ))
  ]

  shrink-lem :
      (size : ℕ) (m : Dict K (CacheEntry V))
      → Dict.IsKeyed m
      → Dict.IsKeyed (shrink size m) × (length (shrink size m) ≡ min size (length m))
  unfolding shrink
  shrink-lem size [] h = (tt, omega arith)
  shrink-lem size (p ∷ m) h = ground (arith, shrink-lem size m h.1)

  prune-IsValid : (now : ℕ) (c : Cache K V) → IsValid c → IsValid (prune now c).0
  unfolding prune
  prune-IsValid now c h = record {
    keyed = filter-IsKeyed (λ p. not (expired now p)) c.store h.keyed;
    bounded = omega (arith, length-filter-le (λ p. not (expired now p)) c.store, h.bounded);
    positive = h.positive;
  }

  set_max_size-IsValid : (n : ℕ) (c : Cache K V) → 1 ≤ n → IsValid c → IsValid (set_max_size n c)
  unfolding set_max_size
  set_max_size-IsValid n c p h =
      let (keyed, size) = shrink-lem n c.store h.keyed in
      record { keyed = keyed; bounded = omega (arith, size); positive = p }

  delete-IsValid : (k : K) (c : Cache K V) → IsValid c → IsValid (delete k c).0
  unfolding delete
  delete-IsValid k c h = record {
    keyed = Dict.delete-IsKeyed k c.store h.keyed;
    bounded = omega (arith, Dict.length-delete-le k c.store, h.bounded);
    positive = h.positive;
  }

  invalidate_pattern-IsValid :
      (match : K → Bool) (c : Cache K V) → IsValid c → IsValid (invalidate_pattern match c).0
  unfolding invalidate_pattern
  invalidate_pattern-IsValid match c h = record {
    keyed = filter-IsKeyed (λ p. not (match p.0)) c.store h.keyed;
    bounded = omega (arith, length-filter-le (λ p. not (match p.0)) c.store, h.bounded);
    positive = h.positive;
  }

-- The calls on a cache, `has` being a `get`.
pub data Call (K V : Type 0) : Type 0 where
  read : ℕ → K → Call K V
  write : ℕ → K → V → Option ℕ → Call K V
  drop : K → Call K V
  sweep : ℕ → Call K V
  invalidate : (K → Bool) → Call K V
  resize : ℕ → Call K V
  empty : Call K V
  retime : ℕ → Call K V

module _ {K V : Type 0} ⦃e : Eq K⦄ where
  unfoldable pub step : Call K V → Cache K V → Cache K V
  step (read now k) c = (get now k c).0
  step (write now k v ttl) c = set now k v ttl c
  step (drop k) c = (delete k c).0
  step (sweep now) c = (prune now c).0
  step (invalidate match) c = (invalidate_pattern match c).0
  step (resize n) c = set_max_size n c
  step empty c = clear c
  step (retime ttl) c = set_ttl ttl c

  -- Every call on a valid cache leaves it valid, if it is not resized below 1: no key stands in it
  -- twice, and it holds at most as many entries as its size.
  pub step-IsValid :
      (k : Call K V) (c : Cache K V)
      → ((n : ℕ) → k ≡ resize n → 1 ≤ n)
      → IsValid c
      → IsValid (step k c)
  unfolding step clear set_ttl
  step-IsValid (read now k) c p h = get-IsValid now k c h
  step-IsValid (write now k v ttl) c p h = set-IsValid now k v ttl c h
  step-IsValid (drop k) c p h = delete-IsValid k c h
  step-IsValid (sweep now) c p h = prune-IsValid now c h
  step-IsValid (invalidate match) c p h = invalidate_pattern-IsValid match c h
  step-IsValid (resize n) c p h = set_max_size-IsValid n c (p n refl) h
  step-IsValid empty c p h = record { keyed = tt; bounded = omega arith; positive = h.positive }
  step-IsValid (retime ttl) c p h = record {
    keyed = h.keyed;
    bounded = h.bounded;
    positive = h.positive;
  }
