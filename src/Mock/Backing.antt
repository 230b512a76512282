-- ===== src/Mock/Backing.antt =====
-- What backs a stream of the mock: the deposit covers the whole span at the flow rate, and what has
-- been paid out covers no more than the span up to the last withdrawal.
use sorostream_sdk.Base.{
  ℕ, ◌+◌, ◌-◌, ◌*◌, ◌/◌, ◌≤◌, ◌≡◌, String, Option, none, some, min, string_eq, arith,
}
use native.Mathlib.Nat.{mul-div-le}
use sorostream_sdk.Base.Result.{ok}
use sorostream_sdk.Stream.{Stream, active, safe_claimable}
use sorostream_sdk.Stream.Claims.{mul_span}
use sorostream_sdk.Mock.Claimable.{claimable_at}
use sorostream_sdk.Mock.Create.{CreateStreamParams, new_stream}
use sorostream_sdk.Mock.Flows.{withdraw_from}

pub record IsBacked (clock paid : ℕ) (s : Stream) : Type 0 where
  pub started : s.start_time ≤ s.last_withdraw_time
  pub bounded : s.last_withdraw_time ≤ s.end_time
  pub current : s.last_withdraw_time ≤ clock
  pub funded : s.flow_rate * (s.end_time - s.start_time) ≤ s.deposit
  pub covered : paid ≤ s.flow_rate * (s.last_withdraw_time - s.start_time)

-- No claim exceeds the flow over the time since the last withdrawal, nor the deposit.
pub safe_claimable-le :
    (flow elapsed limit a : ℕ)
    → safe_claimable flow elapsed (some limit) ≡ ok a
    → (a ≤ flow * elapsed) × (a ≤ limit)
unfolding safe_claimable
safe_claimable-le flow elapsed limit a h = ground arith

pub new_stream-IsBacked :
    (now : ℕ) (id sender : String) (p : CreateStreamParams) (value duration : ℕ)
    → IsBacked now 0 (new_stream now id sender p value duration)
unfolding new_stream
new_stream-IsBacked now id sender p value duration = record {
  started = omega arith;
  bounded = omega arith;
  current = omega arith;
  funded = grind arith;
  covered = omega arith;
}

pub withdraw_from-IsBacked :
    (now paid a : ℕ) (s : Stream)
    → IsBacked now paid s
    → s.status ≡ active
    → claimable_at s now ≡ ok a
    → IsBacked now (paid + a) (withdraw_from s now)
unfolding withdraw_from claimable_at
withdraw_from-IsBacked now paid a s h st e = record {
  started = omega (arith, h.started, h.bounded, h.current);
  bounded = omega arith;
  current = omega arith;
  funded = h.funded;
  covered = ground (
    arith,
    safe_claimable-le s.flow_rate (min now s.end_time - s.last_withdraw_time) s.deposit a,
    mul_span s.flow_rate s.start_time s.last_withdraw_time (min now s.end_time) h.started,
  );
}

-- The same, of a slot of the map: absent means not backed.
abbrev pub Backed : ℕ → ℕ → Option Stream → Type 0
Backed clock paid none = ⊥
Backed clock paid (some s) = IsBacked clock paid s

pub IsBacked-later :
    (clock now paid : ℕ) (s : Stream) → clock ≤ now → IsBacked clock paid s → IsBacked now paid s
IsBacked-later clock now paid s t h = record {
  started = h.started;
  bounded = h.bounded;
  current = omega (arith, h.current);
  funded = h.funded;
  covered = h.covered;
}

-- A top-up by `value` lengthens the stream by the whole seconds that `value` pays for.
pub extend-IsBacked :
    (now paid value : ℕ) (s : Stream)
    → IsBacked now paid s
    → IsBacked now paid
        (record s { deposit = s.deposit + value; end_time = s.end_time + value / s.flow_rate })
extend-IsBacked now paid value s h = record {
  started = h.started;
  bounded = omega (arith, h.bounded);
  current = h.current;
  funded = grind (
    arith,
    mul_span s.flow_rate s.start_time s.end_time (s.end_time + value / s.flow_rate),
    mul-div-le value s.flow_rate,
  );
  covered = h.covered;
}
