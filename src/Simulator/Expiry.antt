-- ===== src/Simulator/Expiry.antt =====
-- When the simulator calls an expiry callback.
use sorostream_sdk.Base.{
  ℕ, ◌≡◌, inl, inr, refl, String, true, false, Option, List, [], ◌∷◌, string_eq, contains,
  Option-cases, arith,
}
use text.Mathlib.TextEquality.{eq_iff}
use sorostream_sdk.Base.Int.{ℤ, pos, negsuc}
use sorostream_sdk.Stream.{Stream}
use sorostream_sdk.Simulator.{StreamSimulator, expire, expire_all, advance, ledgers_of}

-- No callback has been called twice, and none whose stream is not noted as expired.
abbrev pub IsOnce : List String → Type 0
IsOnce [] = Unit
IsOnce (id ∷ ids) = (contains ids id ≡ false) × IsOnce ids

pub record IsSound (m : StreamSimulator) : Type 0 where
  pub once : IsOnce m.fired
  pub noted : (id : String) → contains m.fired id ≡ true → contains m.fired_expiry id ≡ true

expire-IsSound :
    (time : ℕ) (s : Stream) (m : StreamSimulator) → IsSound m → IsSound (expire time s m)
unfolding expire contains
expire-IsSound time s m h = record {
  once = ground (arith, h.once, h.noted s.id);
  noted = λ id e. ground (arith, h.noted id, eq_iff s.id id);
}

IsSound-same :
    {m m' : StreamSimulator}
    → IsSound m
    → m'.fired ≡ m.fired
    → m'.fired_expiry ≡ m.fired_expiry
    → IsSound m'
IsSound-same h e f = record { once = rw e h.once; noted = λ id k. rw f (h.noted id (rw e at k)) }

expire_all-IsSound :
    (time : ℕ) (ss : List Stream) (m : StreamSimulator) → IsSound m → IsSound (expire_all time ss m)
unfolding expire_all
expire_all-IsSound time [] m h = h
expire_all-IsSound time (s ∷ ss) m h =
    expire_all-IsSound time ss (expire time s m) (expire-IsSound time s m h)

-- Whatever is advanced, no expiry callback is called a second time.
pub advance-IsSound :
    (clock : ℕ) (seconds : ℤ) (streams : List Stream) (ledgers : Option ℤ) (m : StreamSimulator)
    → IsSound m
    → IsSound (advance clock seconds streams ledgers m).0
unfolding advance
advance-IsSound clock (negsuc n) streams ledgers m h = h
advance-IsSound clock (pos n) streams ledgers m h = elim (Option-cases (ledgers_of ledgers)) [
  | inl bad ↦ rw (bad, advance) (IsSound-same h refl refl)
  | inr (k, good) ↦ rw (good, advance) (expire_all-IsSound _ streams _ (IsSound-same h refl refl))
]
