-- ===== src/Projection.antt =====
-- `simulateStream`, `projectCost` and `calculateStreamDelta` of utils.ts, and `getPortfolioStats` of
-- portfolioAnalytics.ts over the streams that were fetched. Amounts and durations are natural numbers.
-- The offsets `Math.round(step * i)` of the snapshots are an argument, since they are computed in
-- doubles; what is shown of the snapshots does not depend on them.
pub mod Times
pub mod Snapshots
mod Tests
use sorostream_sdk.Base.{
  ℕ, zero, suc, ◌+◌, ◌-◌, ◌*◌, ◌/◌, min, max, Bool, true, false, ◌&&◌, not, Option, none, some,
  List, [], ◌∷◌, ◌++◌, nat_eq, ◌==◌, ltb, if◌then◌else◌, contains, length, filter,
}
use sorostream_sdk.Base.Sort.{sort_on}
use sorostream_sdk.Base.Result.{Result, ok, err, ◌>>=◌}
use sorostream_sdk.Stream.{
  Stream, StreamStatus, ClaimError, overflow, safe_claimable, active, cancelled, completed, paused,
}
use sorostream_sdk.Portfolio.{claimable_now, is_active, is_expired}

pub data ProjectionError : Type 0 where
  amount_not_positive duration_not_positive rate_not_positive claim_overflow : ProjectionError

abbrev pub claimed : Result ClaimError ℕ → Result ProjectionError ℕ
claimed (ok n) = ok n
claimed (err overflow) = err claim_overflow

pub record StreamSimulationSnapshot : Type 0 where
  pub timestamp : ℕ
  pub streamed : ℕ
  pub remaining : ℕ
  pub percent_complete : ℕ

pub record StreamSimulationResult : Type 0 where
  pub start_time : ℕ
  pub end_time : ℕ
  pub duration_seconds : ℕ
  pub flow_rate : ℕ
  pub total_amount : ℕ
  pub snapshots : List StreamSimulationSnapshot

-- `Set.add`
abbrev pub add : List ℕ → ℕ → List ℕ
add times t = if contains times t then times else times ++ t ∷ []

-- The loop over `i`, of which `left` rounds are left.
unfoldable pub add_times : (ℕ → ℕ) → ℕ → ℕ → ℕ → ℕ → List ℕ → List ℕ
add_times offset start_time end_time zero i times = times
add_times offset start_time end_time (suc left) i times =
    let t = start_time + offset i in
    add_times offset start_time end_time left (i + 1)
      (if ltb t end_time then add times t else times)

abbrev pub snapshot_of : ℕ → ℕ → ℕ → StreamSimulationSnapshot
snapshot_of total ts streamed = record {
  timestamp = ts;
  streamed = streamed;
  remaining = total - streamed;
  percent_complete = if ltb 0 total then streamed * 100 / total else 0;
}

unfoldable pub take_snapshots :
    ℕ → ℕ → ℕ → ℕ → List ℕ → Result ProjectionError (List StreamSimulationSnapshot)
take_snapshots start_time duration flow_rate total [] = ok []
take_snapshots start_time duration flow_rate total (ts ∷ times) = do
  streamed ← claimed (safe_claimable flow_rate (min (ts - start_time) duration) (some total))
  rest ← take_snapshots start_time duration flow_rate total times
  ok (snapshot_of total ts streamed ∷ rest)

abbrev pub or_now : Option ℕ → ℕ → ℕ
or_now none now = now
or_now (some t) now = t

-- `now` is in whole seconds; `snapshot_count` is at least 1.
unfoldable pub simulate_stream :
    (ℕ → ℕ) → ℕ → ℕ → Option ℕ → ℕ → ℕ → Result ProjectionError StreamSimulationResult
unfolding add_times take_snapshots
simulate_stream offset amount duration start_param snapshot_count now =
    let start_time = or_now start_param now in
    let end_time = start_time + duration in
    let flow_rate = amount / duration in
    let times =
      add (add_times offset start_time end_time (max 1 snapshot_count) 1 (start_time ∷ []))
        end_time in
    if amount == 0
    then err amount_not_positive
    else if duration == 0
    then err duration_not_positive
    else (do
      total ← claimed (safe_claimable flow_rate duration none)
      snapshots ←
          take_snapshots start_time duration flow_rate total (sort_on (λ (t : ℕ). t) false times)
      ok (record {
        start_time = start_time;
        end_time = end_time;
        duration_seconds = duration;
        flow_rate = flow_rate;
        total_amount = total;
        snapshots = snapshots;
      }))

-- `projectCost`, of a whole number of seconds.
unfoldable pub project_cost : ℕ → ℕ → Result ProjectionError ℕ
project_cost rate duration =
    if rate == 0
    then err rate_not_positive
    else if duration == 0
    then err duration_not_positive
    else claimed (safe_claimable rate duration none)

-- `calculateStreamDelta`, at a time in whole seconds.
unfoldable pub calculate_stream_delta : Stream → ℕ → ℕ → Result ProjectionError ℕ
calculate_stream_delta s previous now = if not (is_active s.status) then ok 0 else (do
  current ←
      claimed
        (safe_claimable s.flow_rate (min now s.end_time - s.last_withdraw_time) (some s.deposit))
  ok (current - previous))

pub record PortfolioStats : Type 0 where
  pub active_sent_count : ℕ
  pub active_received_count : ℕ
  pub total_claimable : ℕ
  pub total_monthly_outflow : ℕ
  pub total_monthly_inflow : ℕ

abbrev pub seconds_per_month : ℕ
seconds_per_month = 30 * 24 * 60 * 60

abbrev pub is_over : StreamStatus → Bool
is_over active = false
is_over cancelled = true
is_over completed = true
is_over paused = false

unfoldable pub is_active_non_expired : ℕ → Stream → Bool
unfolding is_expired
is_active_non_expired now s = not (is_over s.status) && not (is_expired s now)

unfoldable pub sum_claims : (Stream → Result ClaimError ℕ) → List Stream → Result ProjectionError ℕ
sum_claims reading [] = ok 0
sum_claims reading (s ∷ ss) = do
  n ← claimed (reading s)
  rest ← sum_claims reading ss
  ok (n + rest)

-- The streams are those that were fetched, and `now` is in milliseconds.
unfoldable pub get_portfolio_stats :
    List Stream → List Stream → ℕ → Result ProjectionError PortfolioStats
unfolding sum_claims is_active_non_expired
get_portfolio_stats sent received now = do
  let active_sent = filter (is_active_non_expired now) sent
  let active_received = filter (is_active_non_expired now) received
  claimable ← sum_claims (λ s. claimable_now s now) active_received
  outflow ← sum_claims (λ s. safe_claimable s.flow_rate seconds_per_month none) active_sent
  inflow ← sum_claims (λ s. safe_claimable s.flow_rate seconds_per_month none) active_received
  ok (record {
    active_sent_count = length active_sent;
    active_received_count = length active_received;
    total_claimable = claimable;
    total_monthly_outflow = outflow;
    total_monthly_inflow = inflow;
  })
