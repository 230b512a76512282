-- ===== src/Vesting/Tests.antt =====
-- The schedule of a stream with a cliff.
use sorostream_sdk.Base.{◌≡◌, refl, false, [], ◌∷◌, arith}
use sorostream_sdk.Base.Result.{ok}
use sorostream_sdk.Stream.{safe_claimable}
use sorostream_sdk.Samples.{salary}
use sorostream_sdk.Vesting.{
  VestingSchedule, effective, cliff_milestone, percent_milestones, sort_by_time,
  calculate_vesting_schedule,
}
use sorostream_sdk.Vesting.Schedule.{Vests, calculate_vesting_schedule-Vests}

halfway :
    calculate_vesting_schedule salary 30 150
    ≡ ok (record {
      effective_claimable = 500;
      total_amount = 1000;
      cliff_end_time = 130;
      in_cliff = false;
      milestones =
          record { time = 130; vested = 300 }
          ∷ record { time = 150; vested = 500 }
          ∷ record { time = 175; vested = 750 }
          ∷ record { time = 200; vested = 1000 }
          ∷ [];
    })
unfolding calculate_vesting_schedule effective cliff_milestone percent_milestones sort_by_time
    safe_claimable
halfway = refl

calculate_vesting_schedule-Vests_example :
    (v : VestingSchedule) × (calculate_vesting_schedule salary 30 150 ≡ ok v)
    × Vests salary 30 150 v
calculate_vesting_schedule-Vests_example =
    calculate_vesting_schedule-Vests salary 30 150 (omega arith) (omega arith)
