-- ===== src/Retry.antt =====
-- retry.ts: the backoff delay, the backoff state of each request, and the loop of `withRetry`.
pub mod Backoff
pub mod Loop
mod Tests
use sorostream_sdk.Base.{
  ℕ, zero, suc, ◌+◌, ◌-◌, ◌*◌, ◌/◌, ◌^◌, String, Bool, true, false, Option, none, some, List, [],
  ◌∷◌, ◌++◌, string_eq, min, ltb, leb, if◌then◌else◌,
}
use sorostream_sdk.Base.Dict
use sorostream_sdk.Base.Dict.{Dict}
use sorostream_sdk.Base.Result.{Result, ok, err}

-- A strategy of the caller's; `none` is a negative or non-finite delay.
pub data BackoffStrategy : Type 0 where
  exponential linear constant : BackoffStrategy
  custom : (ℕ → ℕ → Option ℕ) → BackoffStrategy

-- Of a product of doubles that is a whole number: from here on it rounds to `Infinity`.
abbrev pub first_infinite : ℕ
first_infinite = 2 ^ 1024 - 2 ^ 970

abbrev pub finite : ℕ → Option ℕ
finite raw = if leb first_infinite raw then none else some raw

unfoldable pub raw_delay : ℕ → ℕ → BackoffStrategy → Option ℕ
raw_delay attempt base exponential = finite (base * 2 ^ attempt)
raw_delay attempt base linear = finite (base * (attempt + 1))
raw_delay attempt base constant = finite base
raw_delay attempt base (custom f) = f attempt base

abbrev pub limited : ℕ → Option ℕ → ℕ
limited limit none = 0
limited limit (some raw) = min limit raw

unfoldable pub compute_backoff_delay : ℕ → ℕ → ℕ → BackoffStrategy → ℕ
compute_backoff_delay attempt base limit strategy = limited limit (raw_delay attempt base strategy)

-- `jitterDelay` of internal.ts: a delay within a quarter of `raw`, for `Math.random()` equal to
-- `random / 2 ^ 53`.
unfoldable pub jitter_delay : ℕ → ℕ → ℕ
jitter_delay raw random = (3 * raw * 2 ^ 53 + 2 * raw * random) / 2 ^ 55

pub record RetryBackoff : Type 0 where
  pub base_delay_ms : ℕ
  pub max_delay_ms : ℕ
  pub backoff : BackoffStrategy
  pub jitter : Bool
  pub attempt_counts : Dict String ℕ

abbrev pub or_zero : Option ℕ → ℕ
or_zero none = 0
or_zero (some n) = n

unfoldable pub get_attempt_count : String → RetryBackoff → ℕ
get_attempt_count key b = or_zero (Dict.get key b.attempt_counts)

unfoldable pub on_success : String → RetryBackoff → RetryBackoff
on_success key b = record b { attempt_counts = Dict.delete key b.attempt_counts }

abbrev pub jittered : Bool → ℕ → ℕ → ℕ
jittered jitter random raw = if jitter then jitter_delay raw random else raw

unfoldable pub on_failure : ℕ → String → RetryBackoff → RetryBackoff × ℕ
on_failure random key b =
    let attempt = or_zero (Dict.get key b.attempt_counts) in
    (
      record b { attempt_counts = Dict.set key (attempt + 1) b.attempt_counts },
      jittered b.jitter random
          (compute_backoff_delay attempt b.base_delay_ms b.max_delay_ms b.backoff),
    )

unfoldable pub reset_all : RetryBackoff → RetryBackoff
reset_all b = record b { attempt_counts = [] }

-- How `withRetry` ends: with the value, aborted, with an error that must not be retried, or with
-- `SoroStreamRetryExhaustedError`, which lists the errors of all attempts.
pub data RetryEnd (E A : Type 0) : Type 0 where
  returned : A → RetryEnd E A
  aborted : RetryEnd E A
  rethrown : E → RetryEnd E A
  exhausted : List E → RetryEnd E A

module _ {E A : Type 0} (fn : ℕ → Result E A) (is_aborted : ℕ → Bool) (can_retry : E → Bool)
    (delay : ℕ → ℕ) where
  -- The `for` loop, with the rounds that are left. `fn i` is how the function settles at its i-th
  -- call, and `is_aborted i` what `signal.aborted` is before it. The list of waits is returned too.
  unfoldable pub attempt_from : ℕ → ℕ → List E → RetryEnd E A × List ℕ
  attempt_from zero i errors = (exhausted errors, [])
  attempt_from (suc left) i errors = elim (is_aborted i) [
    | true ↦ (aborted, [])
    | false ↦ elim (fn i) [
      | ok a ↦ (returned a, [])
      | err e ↦ elim (can_retry e) [
        | false ↦ (rethrown e, [])
        | true ↦
            let (end, waits) = attempt_from left (i + 1) (errors ++ e ∷ []) in
            (end, if ltb 0 left then delay i ∷ waits else waits)
      ]
    ]
  ]

-- The options of `withRetry`; `can_retry` is what `shouldRetry` and `transientOnly` select.
pub record RetryOptions (E : Type 0) : Type 0 where
  pub max_attempts : ℕ
  pub base_delay_ms : ℕ
  pub max_delay_ms : ℕ
  pub backoff : BackoffStrategy
  pub jitter : Bool
  pub can_retry : E → Bool

unfoldable pub wait_after : {E : Type 0} → RetryOptions E → (ℕ → ℕ) → ℕ → ℕ
wait_after o random i =
    jittered o.jitter (random i) (compute_backoff_delay i o.base_delay_ms o.max_delay_ms o.backoff)

unfoldable pub with_retry :
    {E A : Type 0}
    → (ℕ → Result E A)
    → (ℕ → Bool)
    → (ℕ → ℕ)
    → RetryOptions E
    → RetryEnd E A × List ℕ
unfolding attempt_from wait_after
with_retry fn is_aborted random o =
    attempt_from fn is_aborted o.can_retry (wait_after o random) o.max_attempts 0 []
