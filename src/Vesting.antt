-- ===== src/Vesting.antt =====
-- `calculateVestingSchedule` of utils.ts, at a given time `now`; durations are not negative.
pub mod Schedule
mod Tests
use sorostream_sdk.Base.{
  ℕ, ◌+◌, ◌-◌, ◌*◌, ◌/◌, Bool, true, false, Option, none, some, List, [], ◌∷◌, ◌++◌, min, max, ltb,
  leb, if◌then◌else◌,
}
use sorostream_sdk.Base.Result.{Result, ok, err, ◌>>=◌}
use sorostream_sdk.Stream.{Stream, ClaimError, safe_claimable}

pub record Milestone : Type 0 where
  pub time : ℕ
  pub vested : ℕ

pub record VestingSchedule : Type 0 where
  pub effective_claimable : ℕ
  pub total_amount : ℕ
  pub cliff_end_time : ℕ
  pub in_cliff : Bool
  pub milestones : List Milestone

abbrev pub claim : Stream → ℕ → Result ClaimError ℕ
claim s seconds = safe_claimable s.flow_rate seconds (some s.deposit)

-- The three branches of `effectiveClaimable`.
unfoldable pub effective : Stream → ℕ → ℕ → ℕ → Result ClaimError ℕ
effective s cliff now total =
    let cliff_end = s.start_time + cliff in
    if ltb now cliff_end
    then ok 0
    else if leb s.end_time now
    then ok total
    else claim s (cliff + (min now s.end_time - max cliff_end s.start_time))

unfoldable pub cliff_milestone : Stream → ℕ → Result ClaimError (List Milestone)
cliff_milestone s cliff =
    if ltb cliff (s.end_time - s.start_time)
    then (do
      vested ← claim s cliff
      ok (record { time = s.start_time + cliff; vested = vested } ∷ []))
    else ok []

-- The loop over the percentages.
unfoldable pub percent_milestones : Stream → ℕ → List ℕ → Result ClaimError (List Milestone)
percent_milestones s cliff [] = ok []
percent_milestones s cliff (percent ∷ rest) =
    let seconds = (s.end_time - s.start_time) * percent / 100 in
    let later = percent_milestones s cliff rest in
    if ltb (s.start_time + cliff) (s.start_time + seconds)
    then (do
      vested ← claim s seconds
      milestones ← later
      ok (record { time = s.start_time + seconds; vested = vested } ∷ milestones))
    else later

-- `sort((a, b) => a.time - b.time)`, which is stable.
unfoldable pub insert_by_time : Milestone → List Milestone → List Milestone
insert_by_time m [] = m ∷ []
insert_by_time m (n ∷ ns) =
    let later = n ∷ insert_by_time m ns in if leb m.time n.time then m ∷ n ∷ ns else later

unfoldable pub sort_by_time : List Milestone → List Milestone
unfolding insert_by_time
sort_by_time [] = []
sort_by_time (m ∷ ms) = insert_by_time m (sort_by_time ms)

unfoldable pub calculate_vesting_schedule : Stream → ℕ → ℕ → Result ClaimError VestingSchedule
calculate_vesting_schedule s cliff now = do
  total ← claim s (s.end_time - s.start_time)
  claimable ← effective s cliff now total
  first ← cliff_milestone s cliff
  rest ← percent_milestones s cliff (25 ∷ 50 ∷ 75 ∷ 100 ∷ [])
  ok (record {
    effective_claimable = claimable;
    total_amount = total;
    cliff_end_time = s.start_time + cliff;
    in_cliff = ltb now (s.start_time + cliff);
    milestones = sort_by_time (first ++ rest);
  })
