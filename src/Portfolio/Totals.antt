-- ===== src/Portfolio/Totals.antt =====
-- The totals of utils.ts over many streams: `totalValueStreamed`, `aggregateStreams`,
-- `aggregateStreamsByStatus`, and the aggregates by token and by recipient, which differ in the text
-- that they group by. A sum that a claim's overflow cuts off is an error.
use sorostream_sdk.Base.{
  ℕ, ◌+◌, ◌-◌, ◌/◌, min, String, true, some, none, Option, List, [], ◌∷◌, nat_eq, string_eq, ltb,
  if◌then◌else◌, length, map,
}
use sorostream_sdk.Base.Dict
use sorostream_sdk.Base.Dict.{Dict}
use sorostream_sdk.Base.Sort.{sort_on}
use sorostream_sdk.Base.Result.{Result, ok, ◌>>=◌}
use sorostream_sdk.Stream.{Stream, StreamStatus, ClaimError, safe_claimable}
use sorostream_sdk.Portfolio.{claimable_now}

pub record StreamTotals : Type 0 where
  pub total_streams : ℕ
  pub total_deposited : ℕ
  pub total_claimable : ℕ
  pub total_claimed : ℕ
  pub total_remaining : ℕ

-- What a stream can still pay after its last withdrawal.
abbrev pub remaining_of : Stream → Result ClaimError ℕ
remaining_of s = safe_claimable s.flow_rate (s.end_time - s.last_withdraw_time) (some s.deposit)

unfoldable pub add_totals : List Stream → ℕ → StreamTotals → Result ClaimError StreamTotals
add_totals [] now t = ok t
add_totals (s ∷ ss) now t = do
  claimable ← claimable_now s now
  remaining ← remaining_of s
  add_totals ss now (record t {
    total_deposited = t.total_deposited + s.deposit;
    total_claimable = t.total_claimable + claimable;
    total_claimed = t.total_claimed + (s.deposit - remaining);
    total_remaining = t.total_remaining + remaining;
  })

unfoldable pub total_value_streamed : List Stream → ℕ → Result ClaimError StreamTotals
unfolding add_totals
total_value_streamed streams now = add_totals streams now (record {
  total_streams = length streams;
  total_deposited = 0;
  total_claimable = 0;
  total_claimed = 0;
  total_remaining = 0;
})

pub record StatusBreakdown : Type 0 where
  pub active : ℕ
  pub cancelled : ℕ
  pub completed : ℕ

-- A paused stream is in none of the three.
abbrev pub count_status : StreamStatus → StatusBreakdown → StatusBreakdown
count_status StreamStatus.active b = record b { active = b.active + 1 }
count_status StreamStatus.cancelled b = record b { cancelled = b.cancelled + 1 }
count_status StreamStatus.completed b = record b { completed = b.completed + 1 }
count_status StreamStatus.paused b = b

unfoldable pub count_statuses : List Stream → StatusBreakdown → StatusBreakdown
count_statuses [] b = b
count_statuses (s ∷ ss) b = count_statuses ss (count_status s.status b)

unfoldable pub aggregate_streams_by_status : List Stream → StatusBreakdown
unfolding count_statuses
aggregate_streams_by_status streams =
    count_statuses streams (record { active = 0; cancelled = 0; completed = 0 })

pub record StreamsAggregate : Type 0 where
  pub total_streams : ℕ
  pub total_value_locked : ℕ
  pub average_rate : ℕ
  pub status_breakdown : StatusBreakdown

-- The loop's variables.
pub record Running : Type 0 where
  pub value_locked : ℕ
  pub rate_sum : ℕ
  pub breakdown : StatusBreakdown

abbrev pub run_status : StreamStatus → Stream → ℕ → Running → Result ClaimError Running
run_status StreamStatus.active s now r = do
  released ←
      safe_claimable s.flow_rate (min (now / 1000) s.end_time - s.start_time) (some s.deposit)
  ok (record {
    value_locked = r.value_locked + (s.deposit - released);
    rate_sum = r.rate_sum + s.flow_rate;
    breakdown = count_status StreamStatus.active r.breakdown;
  })
run_status StreamStatus.cancelled s now r =
    ok (record r { breakdown = count_status StreamStatus.cancelled r.breakdown })
run_status StreamStatus.completed s now r =
    ok (record r { breakdown = count_status StreamStatus.completed r.breakdown })
run_status StreamStatus.paused s now r = ok r

unfoldable pub run_streams : List Stream → ℕ → Running → Result ClaimError Running
run_streams [] now r = ok r
run_streams (s ∷ ss) now r = do r' ← run_status s.status s now r; run_streams ss now r'

unfoldable pub aggregate_streams : List Stream → ℕ → Result ClaimError StreamsAggregate
unfolding run_streams
aggregate_streams streams now = do
  r ← run_streams streams now (record {
    value_locked = 0;
    rate_sum = 0;
    breakdown = record { active = 0; cancelled = 0; completed = 0 };
  })
  ok (record {
    total_streams = length streams;
    total_value_locked = r.value_locked;
    average_rate = if ltb 0 r.breakdown.active then r.rate_sum / r.breakdown.active else 0;
    status_breakdown = r.breakdown;
  })

-- `TokenAggregate` and `RecipientAggregate`, with the token or the recipient as `key`.
pub record Aggregate : Type 0 where
  pub key : String
  pub stream_count : ℕ
  pub deposited : ℕ
  pub claimable : ℕ
  pub claimed_so_far : ℕ

abbrev pub existing : String → Option Aggregate → Aggregate
existing key none = record {
  key = key;
  stream_count = 0;
  deposited = 0;
  claimable = 0;
  claimed_so_far = 0;
}
existing key (some a) = a

abbrev pub add_to : ℕ → ℕ → Stream → Aggregate → Aggregate
add_to claimable remaining s a = record a {
  stream_count = a.stream_count + 1;
  deposited = a.deposited + s.deposit;
  claimable = a.claimable + claimable;
  claimed_so_far = a.claimed_so_far + (s.deposit - remaining);
}

unfoldable pub group_streams :
    (Stream → String)
    → List Stream
    → ℕ
    → Dict String Aggregate
    → Result ClaimError (Dict String Aggregate)
group_streams key_of [] now m = ok m
group_streams key_of (s ∷ ss) now m = do
  claimable ← claimable_now s now
  remaining ← remaining_of s
  group_streams key_of ss now (
      Dict.set (key_of s)
        (add_to claimable remaining s (existing (key_of s) (Dict.get (key_of s) m))) m)

abbrev pub value_of : String × Aggregate → Aggregate
value_of (key, a) = a

unfoldable pub aggregate_by :
    (Stream → String) → List Stream → ℕ → Result ClaimError (List Aggregate)
unfolding group_streams
aggregate_by key_of streams now = do
  m ← group_streams key_of streams now []
  ok (sort_on (λ (a : Aggregate). a.deposited) true (map value_of m))

unfoldable pub aggregate_streams_by_token : List Stream → ℕ → Result ClaimError (List Aggregate)
unfolding aggregate_by
aggregate_streams_by_token streams now = aggregate_by (λ (s : Stream). s.token) streams now

unfoldable pub aggregate_streams_by_recipient : List Stream → ℕ → Result ClaimError (List Aggregate)
unfolding aggregate_by
aggregate_streams_by_recipient streams now = aggregate_by (λ (s : Stream). s.recipient) streams now
