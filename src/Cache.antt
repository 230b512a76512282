-- ===== src/Cache.antt =====
-- cache.ts: an LRU cache with expiry. The `Map` is the list of its entries in insertion order, so
-- the least recently used entry stands first. `now` is what the monotonic clock `now()` returns.
pub mod Order
pub mod Invariant
mod Tests
use sorostream_sdk.Base.{
  ℕ, zero, suc, ◌+◌, ◌-◌, Bool, true, false, not, Option, none, some, List, [], ◌∷◌, Eq, length,
  filter, ltb, leb, if◌then◌else◌,
}
use sorostream_sdk.Base.Dict
use sorostream_sdk.Base.Dict.{Dict}

pub record CacheEntry (V : Type 0) : Type 0 where
  pub value : V
  pub expires_at : ℕ

pub record Cache (K V : Type 0) : Type 0 where
  pub store : Dict K (CacheEntry V)
  pub default_ttl_ms : ℕ
  pub max_size : ℕ
  pub writes_since_prune : ℕ

unfoldable pub create : {K V : Type 0} → Option ℕ → Option ℕ → Cache K V
create ttl size = record {
  store = [];
  default_ttl_ms = elim ttl [ none ↦ 60000 | some t ↦ t ];
  max_size = elim size [ none ↦ 1000 | some n ↦ n ];
  writes_since_prune = 0;
}

abbrev pub expired {ℓ} : {K : Type ℓ} {V : Type 0} → ℕ → K × CacheEntry V → Bool
expired now (k, e) = ltb e.expires_at now

module _ {K V : Type 0} ⦃e : Eq K⦄ where
  -- What `get` does with the entry that it has found. A live one goes to the end.
  abbrev pub read_entry : ℕ → K → Cache K V → CacheEntry V → Cache K V × Option V
  read_entry now key c entry =
      let removed = Dict.delete key c.store in
      if ltb entry.expires_at now
      then (record c { store = removed }, none)
      else (record c { store = Dict.set key entry removed }, some entry.value)

  unfoldable pub get : ℕ → K → Cache K V → Cache K V × Option V
  get now key c = elim (Dict.get key c.store) [
    | none ↦ (c, none)
    | some entry ↦ read_entry now key c entry
  ]

  -- The cache without its expired entries, and how many they were.
  unfoldable pub prune : ℕ → Cache K V → Cache K V × ℕ
  prune now c =
      let kept = filter (λ p. not (expired now p)) c.store in
      (record c { store = kept; writes_since_prune = 0 }, length c.store - length kept)

  abbrev tail_of : Dict K (CacheEntry V) → Dict K (CacheEntry V)
  tail_of [] = []
  tail_of (p ∷ m) = m

  -- The `if`/`else if` of `set`: the entries that stay.
  unfoldable pub make_room : K → ℕ → Dict K (CacheEntry V) → Dict K (CacheEntry V)
  make_room key max_size m =
      if Dict.has key m then Dict.delete key m else if leb max_size (length m) then tail_of m else m

  -- `if (++this.writesSincePrune >= 100) this.prune()`
  unfoldable pub count_write : ℕ → Cache K V → Cache K V
  unfolding prune
  count_write now c =
      let counted = record c { writes_since_prune = c.writes_since_prune + 1 } in
      if leb 100 (c.writes_since_prune + 1) then (prune now counted).0 else counted

  abbrev pub ttl_of : Cache K V → Option ℕ → ℕ
  ttl_of c none = c.default_ttl_ms
  ttl_of c (some ttl) = ttl

  unfoldable pub set : ℕ → K → V → Option ℕ → Cache K V → Cache K V
  set now key value ttl c =
      let counted = count_write now c in
      record counted {
        store =
            Dict.set key (record { value = value; expires_at = now + ttl_of c ttl })
              (make_room key c.max_size counted.store);
      }

  unfoldable pub has : ℕ → K → Cache K V → Cache K V × Bool
  unfolding get
  has now key c =
      let (c', found) = get now key c in (c', elim found [ none ↦ false | some v ↦ true ])

  unfoldable pub delete : K → Cache K V → Cache K V × Bool
  delete key c = (record c { store = Dict.delete key c.store }, Dict.has key c.store)

  -- `invalidatePattern`, by the predicate on keys that the pattern is or is compiled to.
  unfoldable pub invalidate_pattern : (K → Bool) → Cache K V → Cache K V × ℕ
  invalidate_pattern match c =
      let kept = filter (λ p. not (match p.0)) c.store in
      (record c { store = kept }, length c.store - length kept)

module _ {K V : Type 0} where
  unfoldable pub clear : Cache K V → Cache K V
  clear c = record c { store = []; writes_since_prune = 0 }

  -- The loop of `setMaxSize`: the first entries go while the map is too large.
  unfoldable pub shrink : ℕ → Dict K (CacheEntry V) → Dict K (CacheEntry V)
  shrink size [] = []
  shrink size (p ∷ m) =
      let rest = shrink size m in if ltb size (length (p ∷ m)) then rest else p ∷ m

  unfoldable pub set_max_size : ℕ → Cache K V → Cache K V
  unfolding shrink
  set_max_size size c = record c { max_size = size; store = shrink size c.store }

  unfoldable pub set_ttl : ℕ → Cache K V → Cache K V
  set_ttl ttl c = record c { default_ttl_ms = ttl }
