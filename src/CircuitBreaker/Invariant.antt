-- ===== src/CircuitBreaker/Invariant.antt =====
-- What holds of a breaker whatever happens to it, and what that makes of failures.
use sorostream_sdk.Base.{
  ℕ, ◌+◌, ◌≤◌, ◌<◌, ◌≡◌, ◌≢◌, false, List, [], ◌∷◌, leb, if◌then◌else◌, length, ◌↔◌, arith,
}
use native.Mathlib.Nat.{add-zero}
use sorostream_sdk.CircuitBreaker.{
  CircuitState, closed, open_state, half_open, Breaker, Event, step, fail, create, BreakerOptions,
  admit, admitted, begin,
}

-- A closed breaker has failed less often than the threshold, an open or half-open one that often,
-- unless it was paused by hand, and a paused one is not half-open.
pub record IsSound (b : Breaker) : Type 0 where
  pub few : b.state ≡ closed → b.failure_count < b.threshold
  pub many : b.state ≢ closed → b.manually_paused ≡ false → b.threshold ≤ b.failure_count
  pub probing : b.state ≡ half_open → b.manually_paused ≡ false
  pub positive : 1 ≤ b.threshold

-- Whatever happens to a sound breaker, it stays sound: closed below the threshold, open or half-open
-- from it on unless it was paused by hand, and never half-open while it is paused.
pub step-IsSound : (e : Event) (b : Breaker) → IsSound b → IsSound (step e b)
unfolding step
step-IsSound (begin now) b h = record {
  few = ground (arith, h.few, h.many, h.probing, h.positive);
  many = ground (arith, h.few, h.many, h.probing, h.positive);
  probing = ground (arith, h.few, h.many, h.probing, h.positive);
  positive = ground (arith, h.few, h.many, h.probing, h.positive);
}
step-IsSound e b h = record {
  few = ground (arith, h.few, h.many, h.probing, h.positive);
  many = ground (arith, h.few, h.many, h.probing, h.positive);
  probing = ground (arith, h.few, h.many, h.probing, h.positive);
  positive = ground (arith, h.few, h.many, h.probing, h.positive);
}

-- A failed probe opens a sound breaker again, for a whole cooldown.
pub failed_probe_reopens :
    (b : Breaker) (now later : ℕ)
    → IsSound b
    → b.state ≡ half_open
    → later < now + b.cooldown_ms
    → ((fail now b).state ≡ open_state) × ((admit later (fail now b)).1 ≢ admitted)
unfolding fail admit
failed_probe_reopens b now later h probing soon = ground (arith, h.many, h.probing)

-- Failures at the given times, with nothing in between.
unfoldable pub fail_times : List ℕ → Breaker → Breaker
fail_times [] b = b
fail_times (now ∷ times) b = fail_times times (fail now b)

abbrev tripped : Breaker → ℕ → CircuitState
tripped b count = if leb b.threshold count then open_state else closed

fail_times-state :
    (times : List ℕ) (b : Breaker)
    → b.state ≡ tripped b b.failure_count
    → (fail_times times b).state ≡ tripped b (b.failure_count + length times)
unfolding fail_times fail
fail_times-state [] b h = rw (add-zero) h
fail_times-state (now ∷ times) b h = ground (arith, fail_times-state times (fail now b))

-- A new breaker is open after failures alone exactly when they are as many as the threshold.
pub create-trips :
    (o : BreakerOptions) (times : List ℕ)
    → 1 ≤ (create o).threshold
    → ((fail_times times (create o)).state ≡ open_state) ↔ ((create o).threshold ≤ length times)
unfolding create
create-trips o times h = ground (arith, fail_times-state times (create o))
