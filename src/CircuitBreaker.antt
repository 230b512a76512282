-- ===== src/CircuitBreaker.antt =====
-- circuitBreaker.ts. `call` awaits the wrapped function, so it is two steps here: `admit`, up to the
-- `try`, and `succeed` or `fail`, when the function settles. Other steps may come in between. Times
-- are milliseconds; `now` is what `Date.now()` returns.
pub mod Invariant
pub mod Probes
mod Tests
use sorostream_sdk.Base.{
  ℕ, ◌+◌, ◌-◌, Bool, true, false, Option, none, some, leb, ltb, if◌then◌else◌,
}

pub data CircuitState : Type 0 where
  closed open_state half_open : CircuitState

pub record Breaker : Type 0 where
  pub state : CircuitState
  pub failure_count : ℕ
  pub last_failure_time : ℕ
  pub last_probe_time : ℕ
  pub threshold : ℕ
  pub cooldown_ms : ℕ
  pub half_open_probe_interval_ms : ℕ
  pub manually_paused : Bool

pub record BreakerOptions : Type 0 where
  pub threshold : Option ℕ
  pub cooldown_ms : Option ℕ
  pub half_open_probe_interval_ms : Option ℕ

abbrev pub or_default : Option ℕ → ℕ → ℕ
or_default none d = d
or_default (some n) d = n

unfoldable pub create : BreakerOptions → Breaker
create o = record {
  state = closed;
  failure_count = 0;
  last_failure_time = 0;
  last_probe_time = 0;
  threshold = or_default o.threshold 3;
  cooldown_ms = or_default o.cooldown_ms 30000;
  half_open_probe_interval_ms =
      or_default o.half_open_probe_interval_ms (or_default o.cooldown_ms 30000);
  manually_paused = false;
}

-- The errors that `call` throws without running the function; `next_probe_in` carries `remaining`.
pub data Rejection : Type 0 where
  paused_by_hand circuit_open : Rejection
  next_probe_in : ℕ → Rejection

pub data Admission : Type 0 where
  admitted : Admission
  rejected : Rejection → Admission

-- The branches of `call` on the state, where the breaker is not paused. The tests are
-- `now - last >= cooldown` and `interval - (now - last) > 0`, free of subtraction.
abbrev pub admit_in : CircuitState → ℕ → Breaker → Breaker × Admission
admit_in closed now b = (b, admitted)
admit_in open_state now b =
    if leb (b.last_failure_time + b.cooldown_ms) now
    then (record b { state = half_open; last_probe_time = now }, admitted)
    else (b, rejected circuit_open)
admit_in half_open now b =
    if ltb now (b.half_open_probe_interval_ms + b.last_probe_time)
    then (b, rejected (next_probe_in (b.half_open_probe_interval_ms + b.last_probe_time - now)))
    else (record b { last_probe_time = now }, admitted)

unfoldable pub admit : ℕ → Breaker → Breaker × Admission
admit now b = if b.manually_paused then (b, rejected paused_by_hand) else admit_in b.state now b

unfoldable pub reset : Breaker → Breaker
reset b = record b { state = closed; failure_count = 0 }

abbrev pub is_open : CircuitState → Bool
is_open open_state = true
is_open _ = false

unfoldable pub succeed : Breaker → Breaker
unfolding reset
succeed b = if is_open b.state then b else reset b

unfoldable pub fail : ℕ → Breaker → Breaker
fail now b = record b {
  failure_count = b.failure_count + 1;
  last_failure_time = now;
  state = if leb b.threshold (b.failure_count + 1) then open_state else b.state;
}

unfoldable pub pause : ℕ → Breaker → Breaker
pause now b = record b { manually_paused = true; state = open_state; last_failure_time = now }

unfoldable pub resume : Breaker → Breaker
unfolding reset
resume b = reset (record b { manually_paused = false })

-- What can happen to a breaker, in any order.
pub data Event : Type 0 where
  begin : ℕ → Event
  succeeded : Event
  failed : ℕ → Event
  pause_at : ℕ → Event
  resume_now : Event
  reset_now : Event

unfoldable pub step : Event → Breaker → Breaker
unfolding admit succeed fail pause resume reset
step (begin now) b = (admit now b).0
step succeeded b = succeed b
step (failed now) b = fail now b
step (pause_at now) b = pause now b
step resume_now b = resume b
step reset_now b = reset b
