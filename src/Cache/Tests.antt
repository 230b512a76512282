-- ===== src/Cache/Tests.antt =====
-- A cache of two entries.
use sorostream_sdk.Base.{ℕ, ◌≡◌, refl, none, some, [], ◌∷◌, nat_eq, arith}
use sorostream_sdk.Base.Dict
use sorostream_sdk.Base.Dict.{Dict}
use sorostream_sdk.Cache.{Cache, CacheEntry, get, set, make_room, count_write}
use sorostream_sdk.Cache.Invariant.{IsValid, write, step, step-IsValid}

abbrev entry : ℕ → CacheEntry ℕ
entry v = record { value = v; expires_at = 60 }

abbrev full : Cache ℕ ℕ
full = record {
  store = (1, entry 10) ∷ (2, entry 20) ∷ [];
  default_ttl_ms = 60;
  max_size = 2;
  writes_since_prune = 2;
}

-- The entry of 1 was used least recently.
evicts_first : (set 0 3 30 none full).store ≡ (2, entry 20) ∷ (3, entry 30) ∷ []
unfolding set count_write make_room Dict.set Dict.has
evicts_first = refl

reads : (get 5 1 full).1 ≡ some 10
unfolding get Dict.get
reads = refl

full-IsValid : IsValid full
full-IsValid = record { keyed = ground arith; bounded = omega arith; positive = omega arith }

step-IsValid_example : IsValid (step (write 0 3 30 none) full)
step-IsValid_example = step-IsValid (write 0 3 30 none) full (λ n e. ground arith) full-IsValid
