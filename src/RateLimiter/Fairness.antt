-- ===== src/RateLimiter/Fairness.antt =====
-- Order and bounds of the limiter, over every sequence of calls and settled tasks.
use sorostream_sdk.Base.{
  ℕ, ◌+◌, ◌≤◌, ◌<◌, ◌≡◌, refl, ◌∙◌, ◌⊎◌, inl, inr, true, List, [], ◌∷◌, ◌++◌, length, max, ltb,
  Bool-cases, arith,
}
use mathlib.Core.List.{append_assoc}
use sorostream_sdk.RateLimiter.{Limiter, start, drain_from, drain}

lt_of_ltb : (a b : ℕ) → ltb a b ≡ true → a < b
lt_of_ltb a b h = ground arith

module _ {T : Type 0} where
  -- Tasks wait only while the limit is reached.
  abbrev pub IsBusy : Limiter T → Type 0
  IsBusy l = (l.queue ≡ []) ⊎ (l.max_concurrent ≤ l.in_flight)

  pub record Drained (l d : Limiter T) : Type 0 where
    pub order : d.started ++ d.queue ≡ l.started ++ l.queue
    pub busy : IsBusy d
    pub same_limit : d.max_concurrent ≡ l.max_concurrent
    pub bounded : d.in_flight ≤ max l.in_flight l.max_concurrent
    pub counted : d.in_flight + length d.queue ≡ l.in_flight + length l.queue

  drain_from-Drained :
      (q : List T) (l : Limiter T) → Drained (record l { queue = q }) (drain_from q l)
  unfolding drain_from
  drain_from-Drained [] l = record {
    order = refl;
    busy = inl refl;
    same_limit = refl;
    bounded = omega arith;
    counted = refl;
  }
  drain_from-Drained (t ∷ q) l = elim (Bool-cases (ltb l.in_flight l.max_concurrent)) [
    | inl free ↦ rw free (
        let d = drain_from-Drained q (start t l) in
        record {
          order = d.order ∙ append_assoc l.started (t ∷ []) q;
          busy = d.busy;
          same_limit = d.same_limit;
          bounded = omega (arith, d.bounded, lt_of_ltb _ _ free);
          counted = omega (arith, d.counted);
        })
    | inr full ↦ rw full (record {
      order = refl;
      busy = inr (ground arith);
      same_limit = refl;
      bounded = omega arith;
      counted = refl;
    })
  ]

  pub drain-Drained : (l : Limiter T) → Drained l (drain l)
  unfolding drain
  drain-Drained l = drain_from-Drained l.queue l
