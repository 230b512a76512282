-- ===== src/Cache/Order.antt =====
-- What the cache returns, and which entry goes when it is full.
use sorostream_sdk.Base.{
  ℕ, zero, suc, ◌+◌, ◌-◌, ◌≤◌, ◌≡◌, ◌≢◌, refl, ◌∙◌, inl, inr, Bool, true, not, Option, none, some,
  [], ◌∷◌, ◌++◌, Eq, ◌==◌, length, filter, ltb, if◌then◌else◌, Bool-cases, arith,
}
use mathlib.Core.Path.{ap₂}
use sorostream_sdk.Base.Dict
use sorostream_sdk.Base.Dict.{Dict}
use sorostream_sdk.Cache.{
  Cache, CacheEntry, expired, get, set, make_room, count_write, shrink, tail_of, ttl_of,
}
use sorostream_sdk.Cache.Invariant.{IsValid}

module _ {K V : Type 0} ⦃e : Eq K⦄ where
  -- A value is read back until its time to live is over, and not after.
  pub get-set :
      (now later : ℕ) (k : K) (v : V) (ttl : Option ℕ) (c : Cache K V)
      → (get later k (set now k v ttl c)).1
        ≡ (if ltb (now + ttl_of c ttl) later then none else some v)
  unfolding get set
  get-set now later k v ttl c =
      rw
        (
          Dict.get-set_self k (record { value = v; expires_at = now + ttl_of c ttl })
              (make_room k c.max_size (count_write now c).store),
          get,
        )
        (ground arith)

  -- A hit on a live entry of a valid cache moves it to the end, and leaves the others in their
  -- order.
  pub get-moves :
      (now : ℕ) (k : K) (entry : CacheEntry V) (c : Cache K V)
      → IsValid c
      → Dict.get k c.store ≡ some entry
      → now ≤ entry.expires_at
      → (get now k c).0.store ≡ Dict.delete k c.store ++ (k, entry) ∷ []
  unfolding get
  get-moves now k entry c h hit live =
      rw (hit, get)
        (ground (
          arith,
          Dict.set-append k entry (Dict.delete k c.store)
              (Dict.Absent-delete_self k c.store h.keyed),
        ))

  get-filter :
      (p : K × CacheEntry V → Bool) (q : K) (entry : CacheEntry V) (m : Dict K (CacheEntry V))
      → Dict.get q m ≡ some entry
      → p (q, entry) ≡ true
      → Dict.get q (filter p m) ≡ some entry
  unfolding filter Dict.get
  get-filter p q entry [] h k = cc
  get-filter p q entry ((j, w) ∷ m) h k = elim (Bool-cases (j == q)) [
    | inl here ↦
        let same_key : j ≡ q = (e.beq_iff j q).0 here in
        let same_entry : w ≡ entry = ground arith in
        let passes : p (j, w) ≡ true = cc (ap₂ (λ a b. p (a, b)) same_key same_entry) in
        rw (passes, Dict.get) (ground arith)
    | inr away ↦ ground (arith, get-filter p q entry m)
  ]

  abbrev pub first_key : Dict K (CacheEntry V) → Option K
  first_key [] = none
  first_key ((k, w) ∷ m) = some k

  get-tail_of :
      (q : K) (m : Dict K (CacheEntry V))
      → first_key m ≢ some q
      → Dict.get q (tail_of m) ≡ Dict.get q m
  unfolding Dict.get
  get-tail_of q [] h = refl
  get-tail_of q ((j, w) ∷ m) h = ground (arith, e.beq_iff j q)

  get-make_room :
      (k q : K) (size : ℕ) (m : Dict K (CacheEntry V))
      → q ≢ k
      → first_key m ≢ some q
      → Dict.get q (make_room k size m) ≡ Dict.get q m
  unfolding make_room
  get-make_room k q size m other h =
      ground (arith, Dict.get-delete_ne k q m other, get-tail_of q m h)

  get-count_write :
      (now : ℕ) (q : K) (entry : CacheEntry V) (c : Cache K V)
      → Dict.get q c.store ≡ some entry
      → now ≤ entry.expires_at
      → Dict.get q (count_write now c).store ≡ some entry
  unfolding count_write
  get-count_write now q entry c h live =
      ground (arith, get-filter (λ p. not (expired now p)) q entry c.store h)

  -- A write keeps every other live entry but the one in front, the least recently used.
  pub set-keeps :
      (now : ℕ) (k q : K) (v : V) (ttl : Option ℕ) (entry : CacheEntry V) (c : Cache K V)
      → q ≢ k
      → Dict.get q c.store ≡ some entry
      → now ≤ entry.expires_at
      → first_key (count_write now c).store ≢ some q
      → Dict.get q (set now k v ttl c).store ≡ some entry
  unfolding set
  set-keeps now k q v ttl entry c other h live front =
      Dict.get-set_ne k q _ (make_room k c.max_size (count_write now c).store) other
      ∙ get-make_room k q c.max_size (count_write now c).store other front
      ∙ get-count_write now q entry c h live

module _ {K V : Type 0} where
  abbrev pub drop : ℕ → Dict K (CacheEntry V) → Dict K (CacheEntry V)
  drop zero m = m
  drop (suc n) [] = []
  drop (suc n) (p ∷ m) = drop n m

  -- `setMaxSize` drops the least recently used entries, as many as are too many.
  pub shrink-eq-drop :
      (size : ℕ) (m : Dict K (CacheEntry V)) → shrink size m ≡ drop (length m - size) m
  unfolding shrink
  shrink-eq-drop size [] = let none_left : 0 - size ≡ zero = omega arith in rw none_left
  shrink-eq-drop size (p ∷ m) = elim (Bool-cases (ltb size (length (p ∷ m)))) [
    | inl large ↦
        let more : length (p ∷ m) - size ≡ suc (length m - size) = ground arith in
        rw (large, more) (shrink-eq-drop size m)
    | inr small ↦ let less : length (p ∷ m) - size ≡ zero = ground arith in rw (small, less)
  ]
