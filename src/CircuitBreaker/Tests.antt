-- ===== src/CircuitBreaker/Tests.antt =====
-- A breaker that trips, and is paused.
use sorostream_sdk.Base.{◌≡◌, refl, false, some, [], ◌∷◌, arith}
use sorostream_sdk.CircuitBreaker.{
  Breaker, BreakerOptions, open_state, half_open, create, admit, admitted, rejected, circuit_open,
  fail, step, failed,
}
use sorostream_sdk.CircuitBreaker.Invariant.{IsSound, fail_times, step-IsSound}

abbrev two_failures : BreakerOptions
two_failures = record {
  threshold = some 2;
  cooldown_ms = some 50;
  half_open_probe_interval_ms = some 20;
}

-- Open since 100.
abbrev tripped : Breaker
tripped = record {
  state = open_state;
  failure_count = 2;
  last_failure_time = 100;
  last_probe_time = 0;
  threshold = 2;
  cooldown_ms = 50;
  half_open_probe_interval_ms = 20;
  manually_paused = false;
}

abbrev probing : Breaker
probing = record tripped { state = half_open; last_probe_time = 150 }

trips : fail_times (90 ∷ 100 ∷ []) (create two_failures) ≡ tripped
unfolding fail_times fail create
trips = refl

cooled_down :
    (admit 149 tripped ≡ (tripped, rejected circuit_open))
    × (admit 150 tripped ≡ (probing, admitted))
unfolding admit
cooled_down = (refl, refl)

tripped-IsSound : IsSound tripped
tripped-IsSound = record {
  few = ground arith;
  many = λ _ _. omega arith;
  probing = λ _. refl;
  positive = omega arith;
}

probing-IsSound : IsSound probing
probing-IsSound = record {
  few = ground arith;
  many = λ _ _. omega arith;
  probing = λ _. refl;
  positive = omega arith;
}

step-IsSound_example : IsSound (step (failed 120) tripped)
step-IsSound_example = step-IsSound (failed 120) tripped tripped-IsSound
