-- ===== src/Retry/Loop.antt =====
-- How `withRetry` ends, and how often it calls.
use sorostream_sdk.Base.{
  ◌-◌, ap, if◌then◌else◌, ltb, ◌≤◌, ℕ, zero, suc, ◌+◌, ◌<◌, ◌≡◌, ◌⊎◌, inl, inr, refl, subst, Bool,
  true, false, List, [], ◌∷◌, ◌++◌, length, length-append, Bool-cases, arith,
}
use native.Mathlib.Nat.{add-zero}
use sorostream_sdk.Base.Result.{Result, ok, err}
use sorostream_sdk.Retry.{
  RetryEnd, returned, aborted, rethrown, exhausted, attempt_from, with_retry, RetryOptions,
  wait_after,
}

module _ {E A : Type 0} (fn : ℕ → Result E A) (is_aborted : ℕ → Bool) (can_retry : E → Bool)
    (delay : ℕ → ℕ) where
  -- The round `i` calls the function, and it fails with an error that may be retried.
  abbrev pub FailsAt : ℕ → Type 0
  FailsAt i = (is_aborted i ≡ false) × ((e : E) × (fn i ≡ err e) × (can_retry e ≡ true))

  -- How an end that is not for want of attempts comes about at the round `i`.
  abbrev pub EndsAt : ℕ → RetryEnd E A → Type 0
  EndsAt i (returned a) = (is_aborted i ≡ false) × (fn i ≡ ok a)
  EndsAt i aborted = is_aborted i ≡ true
  EndsAt i (rethrown e) = (is_aborted i ≡ false) × (fn i ≡ err e) × (can_retry e ≡ false)
  EndsAt i (exhausted es) = ⊥

  -- All rounds from `i` on, `n` of them, fail.
  abbrev pub FailsFrom : ℕ → ℕ → Type 0
  FailsFrom i zero = Unit
  FailsFrom i (suc n) = FailsAt i × FailsFrom (i + 1) n

  Result-cases : (r : Result E A) → ((a : A) × (r ≡ ok a)) ⊎ ((e : E) × (r ≡ err e))
  Result-cases (ok a) = inl (a, refl)
  Result-cases (err e) = inr (e, refl)

  -- Of the rounds left, `n` failed; then one ended the loop, or none was left.
  abbrev pub Outcome : ℕ → ℕ → List E → RetryEnd E A → Type 0
  Outcome left i errors end =
      ((n : ℕ) × (n < left) × FailsFrom i n × EndsAt (i + n) end)
      ⊎ (FailsFrom i left
          × ((es : List E) × (end ≡ exhausted es) × (length es ≡ length errors + left)))

  module _ (left i : ℕ) (errors : List E) where
    round_aborted :
        is_aborted i ≡ true
        → (attempt_from fn is_aborted can_retry delay (suc left) i errors).0 ≡ aborted
    unfolding attempt_from
    round_aborted h = ground arith

    round_returned :
        (a : A)
        → is_aborted i ≡ false
        → fn i ≡ ok a
        → (attempt_from fn is_aborted can_retry delay (suc left) i errors).0 ≡ returned a
    unfolding attempt_from
    round_returned a h k = ground arith

    round_rethrown :
        (e : E)
        → is_aborted i ≡ false
        → fn i ≡ err e
        → can_retry e ≡ false
        → (attempt_from fn is_aborted can_retry delay (suc left) i errors).0 ≡ rethrown e
    unfolding attempt_from
    round_rethrown e h k r = ground arith

    round_failed :
        (e : E)
        → is_aborted i ≡ false
        → fn i ≡ err e
        → can_retry e ≡ true
        → (attempt_from fn is_aborted can_retry delay (suc left) i errors).0
          ≡ (attempt_from fn is_aborted can_retry delay left (i + 1) (errors ++ e ∷ [])).0
    unfolding attempt_from
    round_failed e h k r = ground arith

  Outcome-later :
      (left i : ℕ) (errors : List E) (e : E) (end : RetryEnd E A)
      → FailsAt i
      → Outcome left (i + 1) (errors ++ e ∷ []) end
      → Outcome (suc left) i errors end
  Outcome-later left i errors e end f (inl (n, lt, fails, ends)) = inl (
    suc n,
    omega arith,
    (f, fails),
    subst (λ k. EndsAt k end) (let p : i + 1 + n ≡ i + suc n = omega arith in p) ends,
  )
  Outcome-later left i errors e end f (inr (fails, (es, same, count))) =
      inr ((f, fails), (es, same, omega (arith, length-append errors (e ∷ []))))

  attempt_from-Outcome :
      (left i : ℕ) (errors : List E)
      → Outcome left i errors (attempt_from fn is_aborted can_retry delay left i errors).0
  unfolding attempt_from
  attempt_from-Outcome zero i errors = inr (tt, (errors, refl, omega arith))
  attempt_from-Outcome (suc left) i errors = elim (Bool-cases (is_aborted i)) [
    | inl stop ↦ rw (round_aborted left i errors stop) (inl (0, omega arith, tt, rw add-zero stop))
    | inr go ↦ elim (Result-cases (fn i)) [
      | inl (a, good) ↦
          rw (round_returned left i errors a go good)
            (inl (0, omega arith, tt, rw add-zero (go, good)))
      | inr (e, bad) ↦ elim (Bool-cases (can_retry e)) [
        | inl again ↦ rw (round_failed left i errors e go bad again) (
            Outcome-later left i errors e _ (go, (e, bad, again))
              (attempt_from-Outcome left (i + 1) (errors ++ e ∷ [])))
        | inr never ↦
            rw (round_rethrown left i errors e go bad never)
              (inl (0, omega arith, tt, rw add-zero (go, bad, never)))
      ]
    ]
  ]

  -- The delays of the rounds from `i` on, `n` of them.
  abbrev pub delays : ℕ → ℕ → List ℕ
  delays i zero = []
  delays i (suc n) = delay i ∷ delays (i + 1) n

  -- The waits are those after rounds that failed, with at least one round left after each.
  abbrev pub Waited : ℕ → ℕ → List ℕ → Type 0
  Waited left i waits = (n : ℕ) × (n ≤ left - 1) × FailsFrom i n × (waits ≡ delays i n)

  no_rounds-Waited : (left i : ℕ) → Waited left i []
  no_rounds-Waited left i = (0, omega arith, tt, refl)

  waits_failed :
      (left i : ℕ) (errors : List E) (e : E)
      → is_aborted i ≡ false
      → fn i ≡ err e
      → can_retry e ≡ true
      → (attempt_from fn is_aborted can_retry delay (suc left) i errors).1 ≡ (
          if ltb 0 left
          then delay i
            ∷ (attempt_from fn is_aborted can_retry delay left (i + 1) (errors ++ e ∷ [])).1
          else (attempt_from fn is_aborted can_retry delay left (i + 1) (errors ++ e ∷ [])).1)
  unfolding attempt_from
  waits_failed left i errors e h k r = ground arith

  waits_ended :
      (left i : ℕ) (errors : List E)
      → ((is_aborted i ≡ true)
          ⊎ ((a : A) × (fn i ≡ ok a))
          ⊎ ((e : E) × (fn i ≡ err e) × (can_retry e ≡ false)))
      → (attempt_from fn is_aborted can_retry delay (suc left) i errors).1 ≡ []
  unfolding attempt_from
  waits_ended left i errors h = ground arith

  Waited-later :
      (left i : ℕ) (waits : List ℕ)
      → FailsAt i
      → Waited left (i + 1) waits
      → Waited (suc left) i (if ltb 0 left then delay i ∷ waits else waits)
  Waited-later zero i waits f (zero, few, fails, same) = (0, omega arith, tt, same)
  Waited-later zero i waits f (suc n, few, fails, same) = absurd (omega arith)
  Waited-later (suc left) i waits f (n, few, fails, same) =
      let more : ltb 0 (suc left) ≡ true = ground arith in
      rw more (suc n, omega arith, (f, fails), ap (λ (ds : List ℕ). delay i ∷ ds) same)

  attempt_from-Waited :
      (left i : ℕ) (errors : List E)
      → Waited left i (attempt_from fn is_aborted can_retry delay left i errors).1
  unfolding attempt_from
  attempt_from-Waited zero i errors = no_rounds-Waited zero i
  attempt_from-Waited (suc left) i errors = elim (Bool-cases (is_aborted i)) [
    | inl stop ↦ rw (waits_ended left i errors (inl stop)) (no_rounds-Waited (suc left) i)
    | inr go ↦ elim (Result-cases (fn i)) [
      | inl (a, good) ↦
          rw (waits_ended left i errors (inr (inl (a, good)))) (no_rounds-Waited (suc left) i)
      | inr (e, bad) ↦ elim (Bool-cases (can_retry e)) [
        | inl again ↦ rw (waits_failed left i errors e go bad again) (
            Waited-later left i _ (go, (e, bad, again))
              (attempt_from-Waited left (i + 1) (errors ++ e ∷ [])))
        | inr never ↦
            rw (waits_ended left i errors (inr (inr (e, bad, never))))
              (no_rounds-Waited (suc left) i)
      ]
    ]
  ]

-- `withRetry` ends at the first round that is aborted, that returns a value or whose error must not
-- be retried, with all rounds before it failed; or all `max_attempts` rounds fail with errors that
-- may be retried, and it ends with the list of that many errors. It waits only after failed rounds
-- that are not the last, in their order and each for its backoff delay.
pub with_retry-Outcome :
    {E A : Type 0} (fn : ℕ → Result E A) (is_aborted : ℕ → Bool) (random : ℕ → ℕ)
    (o : RetryOptions E)
    → Outcome fn is_aborted o.can_retry
        (wait_after o random)
        o.max_attempts
        0
        []
        (with_retry fn is_aborted random o).0
      × Waited fn is_aborted o.can_retry
          (wait_after o random)
          o.max_attempts
          0
          (with_retry fn is_aborted random o).1
unfolding with_retry
with_retry-Outcome fn is_aborted random o = (
  attempt_from-Outcome fn is_aborted o.can_retry (wait_after o random) o.max_attempts 0 [],
  attempt_from-Waited fn is_aborted o.can_retry (wait_after o random) o.max_attempts 0 [],
)
