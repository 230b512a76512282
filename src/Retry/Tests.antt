-- ===== src/Retry/Tests.antt =====
-- Runs of the backoff and of `withRetry`.
use sorostream_sdk.Base.{
  ℕ, zero, suc, ◌+◌, ◌*◌, ◌≡◌, ◌≤◌, refl, true, false, String, [], ◌∷◌, string_eq, ◌==◌,
  if◌then◌else◌, arith,
}
use sorostream_sdk.Base.Result.{Result, ok, err}
use sorostream_sdk.Retry.{
  exponential, compute_backoff_delay, raw_delay, jitter_delay, RetryBackoff, on_failure,
  get_attempt_count, RetryOptions, returned, with_retry, wait_after,
}
use sorostream_sdk.Retry.Backoff.{jitter_delay_bounds, on_failure-count}
use sorostream_sdk.Retry.Loop.{Outcome, Waited, with_retry-Outcome}

-- Fails twice, then returns.
abbrev flaky : ℕ → Result String ℕ
flaky zero = err "timeout"
flaky (suc zero) = err "502"
flaky _ = ok 7

abbrev plain : RetryOptions String
plain = record {
  max_attempts = 3;
  base_delay_ms = 100;
  max_delay_ms = 150;
  backoff = exponential;
  jitter = false;
  can_retry = λ _. true;
}

third_time : with_retry flaky (λ _. false) (λ _. 0) plain ≡ (returned 7, 100 ∷ 150 ∷ [])
unfolding with_retry compute_backoff_delay raw_delay
third_time = refl

with_retry-Outcome_example :
    Outcome flaky
      (λ _. false)
      plain.can_retry
      (wait_after plain (λ _. 0))
      3
      0
      []
      (with_retry flaky (λ _. false) (λ _. 0) plain).0
    × Waited flaky
        (λ _. false)
        plain.can_retry
        (wait_after plain (λ _. 0))
        3
        0
        (with_retry flaky (λ _. false) (λ _. 0) plain).1
with_retry-Outcome_example = with_retry-Outcome flaky (λ _. false) (λ _. 0) plain

jitter_delay_bounds_example :
    (3 * 1000 ≤ 4 * jitter_delay 1000 5 + 3) × (4 * jitter_delay 1000 5 ≤ 5 * 1000)
jitter_delay_bounds_example = jitter_delay_bounds 1000 5 (omega arith)

abbrev fresh : RetryBackoff
fresh = record {
  base_delay_ms = 100;
  max_delay_ms = 30000;
  backoff = exponential;
  jitter = false;
  attempt_counts = [];
}

on_failure-count_example : get_attempt_count "a" (on_failure 0 "a" fresh).0 ≡ (
    if ◌==◌ {K = String} "a" "a"
    then get_attempt_count "a" fresh + 1
    else get_attempt_count "a" fresh)
on_failure-count_example = on_failure-count 0 "a" "a" fresh
