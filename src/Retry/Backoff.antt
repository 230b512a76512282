-- ===== src/Retry/Backoff.antt =====
-- The backoff delays: their bounds, their growth, and the state of each request.
use sorostream_sdk.Base.{
  ℕ, suc, ◌+◌, ◌*◌, ◌^◌, ◌≤◌, ◌<◌, ◌≡◌, ap, String, string_eq, ◌==◌, min, if◌then◌else◌, arith,
}
use native.Mathlib.Nat.{pow-le-pow_right, pow-suc}
use text.Mathlib.TextEquality.{eq_iff}
use sorostream_sdk.Base.Dict
use sorostream_sdk.Stream.Claims.{mul_span_mono}
use sorostream_sdk.Retry.{
  or_zero, BackoffStrategy, exponential, compute_backoff_delay, raw_delay, first_infinite,
  jitter_delay, RetryBackoff, on_failure, get_attempt_count,
}

-- No strategy makes the delay exceed the cap.
pub compute_backoff_delay-le :
    (attempt base limit : ℕ) (s : BackoffStrategy)
    → compute_backoff_delay attempt base limit s ≤ limit
unfolding compute_backoff_delay
compute_backoff_delay-le attempt base limit s = ground arith

-- While it is a finite double, the exponential delay doubles from one attempt to the next, up to the
-- cap.
pub exponential_doubles :
    (attempt base limit : ℕ)
    → base * 2 ^ suc attempt < first_infinite
    → compute_backoff_delay (suc attempt) base limit exponential
      ≡ min limit (2 * (base * 2 ^ attempt))
unfolding compute_backoff_delay raw_delay
exponential_doubles attempt base limit h =
    let twice : base * 2 ^ suc attempt ≡ 2 * (base * 2 ^ attempt) =
      omega (arith, ap (λ (t : ℕ). base * t) (pow-suc 2 attempt)) in
    ground (arith, twice)

-- From the 1024th attempt on the exponential delay overflows, and is 0 instead of the cap.
pub exponential_overflow :
    (attempt base limit : ℕ)
    → 1 ≤ base
    → 1024 ≤ attempt
    → compute_backoff_delay attempt base limit exponential ≡ 0
unfolding compute_backoff_delay raw_delay
exponential_overflow attempt base limit h k =
    let large : 2 ^ 1024 ≤ 2 ^ attempt = pow-le-pow_right (omega arith) k in
    let product : 1 * 2 ^ attempt ≤ base * 2 ^ attempt = grind arith in
    ground (arith, large, product)

-- The jitter keeps a delay within a quarter of it, rounded down.
pub jitter_delay_bounds :
    (raw random : ℕ)
    → random < 2 ^ 53
    → (3 * raw ≤ 4 * jitter_delay raw random + 3) × (4 * jitter_delay raw random ≤ 5 * raw)
unfolding jitter_delay
jitter_delay_bounds raw random h = omega (arith, mul_span_mono raw random (2 ^ 53) (omega arith))

-- A failure counts for its own request alone, and a success clears the count of its own alone.
pub on_failure-count :
    (random : ℕ) (key other : String) (b : RetryBackoff)
    → get_attempt_count other (on_failure random key b).0
      ≡ (if key == other then get_attempt_count other b + 1 else get_attempt_count other b)
unfolding get_attempt_count on_failure
on_failure-count random key other b = ground (
  arith,
  Dict.get-set key other (or_zero (Dict.get key b.attempt_counts) + 1) b.attempt_counts,
  eq_iff key other,
)
