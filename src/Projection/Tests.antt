-- ===== src/Projection/Tests.antt =====
-- Timelines of concrete streams.
use sorostream_sdk.Base.{ℕ, ◌*◌, ◌≡◌, refl, some, arith}
use sorostream_sdk.Base.Result.{ok}
use sorostream_sdk.Stream.{safe_claimable}
use sorostream_sdk.Samples.{salary}
use sorostream_sdk.Projection.{
  StreamSimulationResult, simulate_stream, project_cost, calculate_stream_delta,
}
use sorostream_sdk.Projection.Snapshots.{IsTimeline, simulate_stream-IsTimeline}

thirds : ℕ → ℕ
thirds i = 30 * i

simulate_stream-IsTimeline_example :
    (r : StreamSimulationResult) × (simulate_stream thirds 1000 90 (some 100) 2 7 ≡ ok r)
    × IsTimeline thirds 1000 100 90 2 r
simulate_stream-IsTimeline_example =
    simulate_stream-IsTimeline thirds 1000 90 (some 100) 2 7 (omega arith) (omega arith)
      (omega arith)

salary_delta : calculate_stream_delta salary 300 150 ≡ ok 200
unfolding calculate_stream_delta safe_claimable
salary_delta = refl

month_of_salary : project_cost 10 3600 ≡ ok 36000
unfolding project_cost safe_claimable
month_of_salary = refl
