-- ===== src/RateLimiter/Tests.antt =====
-- A limiter of one task at a time.
use sorostream_sdk.Base.{ℕ, ◌≡◌, refl, inl, List, [], ◌∷◌, ◌++◌, ◌≤◌, ◌+◌, length, nat_eq, arith}
use sorostream_sdk.RateLimiter.{Limiter, Event, submit, settle, limit, step, drain, drain_from}
use sorostream_sdk.RateLimiter.Fairness.{IsBusy}
use sorostream_sdk.RateLimiter.Order.{
  run_all, line, submitted, settled_in, run_all-fifo, run_all-IsWithin,
}

abbrev idle : Limiter ℕ
idle = record { queue = []; in_flight = 0; max_concurrent = 1; started = [] }

-- Three tasks, one that settles, and a higher limit.
abbrev events : List (Event ℕ)
events = submit 7 ∷ submit 8 ∷ submit 9 ∷ settle ∷ limit 2 ∷ []

three_tasks :
    run_all events idle
    ≡ record { queue = []; in_flight = 2; max_concurrent = 2; started = 7 ∷ 8 ∷ 9 ∷ [] }
unfolding step drain drain_from
three_tasks = refl

run_all-fifo_example :
    (line (run_all events idle) ≡ line idle ++ submitted events) × IsBusy (run_all events idle)
run_all-fifo_example = run_all-fifo events idle (inl refl)

run_all-IsWithin_example : length (run_all events idle).started ≤ 2 + settled_in events 0
run_all-IsWithin_example =
    run_all-IsWithin 2 0 events idle
      (
        (λ m e. ground arith),
        (
          (λ m e. ground arith),
          ((λ m e. ground arith), ((λ m e. ground arith), ((λ m e. ground arith), tt))),
        ),
      )
      (record { counted = omega arith; within = omega arith; limited = omega arith })
