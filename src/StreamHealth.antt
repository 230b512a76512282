-- ===== src/StreamHealth.antt =====
-- `getStreamHealth` and `batchGetStreamHealth` of utils.ts, at a given time. A stream does not end
-- before it starts. The thresholds, which the source takes of doubles, are exact here: at times below
-- 2^50 a quotient of two of them is rounded to the same side of a tenth or a twentieth.
pub mod Score
pub mod Pending
mod Tests
use sorostream_sdk.Base.{
  ℕ, ◌+◌, ◌-◌, ◌*◌, ◌/◌, min, max, String, Bool, true, false, ◌&&◌, some, none, List, [], ◌∷◌, ◌++◌,
  nat_eq, ◌==◌, ltb, leb, if◌then◌else◌, length, filter,
}
use sorostream_sdk.Base.Result.{Result, ok, ◌>>=◌}
use sorostream_sdk.Stream.{
  Stream, StreamStatus, ClaimError, safe_claimable, active, cancelled, completed, paused,
}

pub data HealthStatus : Type 0 where
  healthy warning critical ended_well ended_early : HealthStatus

pub data Diagnostic : Type 0 where
  was_cancelled no_withdrawal underfunded still_locked : Diagnostic

pub record StreamHealthResult : Type 0 where
  pub score : ℕ
  pub status : HealthStatus
  pub remaining_balance : ℕ
  pub elapsed_seconds : ℕ
  pub remaining_seconds : ℕ
  pub seconds_since_last_withdrawal : ℕ
  pub diagnostics : List Diagnostic

abbrev pub status_of_score : ℕ → HealthStatus
status_of_score score = if leb 80 score then healthy else if leb 50 score then warning else critical

-- The penalties and the diagnostics, once the amounts are known.
unfoldable pub judge : Stream → ℕ → ℕ → ℕ → StreamHealthResult
judge s now streamed to_stream =
    let duration = s.end_time - s.start_time in
    let elapsed = min (now - s.start_time) duration in
    let remaining = s.end_time - now in
    let balance = s.deposit - streamed in
    let since = if ltb 0 s.last_withdraw_time then now - s.last_withdraw_time else 0 in
    let threshold = max 60 (duration / 10) in
    let stalled = ltb 0 s.last_withdraw_time && ltb threshold since in
    let short = ltb balance to_stream in
    let near_expiry = ltb (9 * duration) (10 * elapsed) && (ltb 0 balance && ltb 0 remaining) in
    let score =
      100
      - (if stalled then min 40 (20 * since / threshold) else 0)
      - (if short then 30 else 0)
      - (if near_expiry then 10 else 0) in
    record {
      score = score;
      status = status_of_score score;
      remaining_balance = balance;
      elapsed_seconds = elapsed;
      remaining_seconds = remaining;
      seconds_since_last_withdrawal = since;
      diagnostics =
          (if stalled then no_withdrawal ∷ [] else [])
          ++ (if short then underfunded ∷ [] else [])
          ++ (if near_expiry then still_locked ∷ [] else []);
    }

-- A stream that is active or paused.
unfoldable pub health_of_running : Stream → ℕ → Result ClaimError StreamHealthResult
unfolding judge
health_of_running s now = do
  streamed ←
      safe_claimable s.flow_rate (min (now - s.start_time) (s.end_time - s.start_time))
        (some s.deposit)
  to_stream ← safe_claimable s.flow_rate (s.end_time - now) none
  ok (judge s now streamed to_stream)

abbrev pub health_in : StreamStatus → Stream → ℕ → Result ClaimError StreamHealthResult
health_in cancelled s now = ok (record {
  score = 0;
  status = ended_early;
  remaining_balance = 0;
  elapsed_seconds = 0;
  remaining_seconds = 0;
  seconds_since_last_withdrawal = 0;
  diagnostics = was_cancelled ∷ [];
})
health_in completed s now = ok (record {
  score = 100;
  status = ended_well;
  remaining_balance = 0;
  elapsed_seconds = s.end_time - s.start_time;
  remaining_seconds = 0;
  seconds_since_last_withdrawal = now - s.last_withdraw_time;
  diagnostics = [];
})
health_in active s now = health_of_running s now
health_in paused s now = health_of_running s now

unfoldable pub get_stream_health : Stream → ℕ → Result ClaimError StreamHealthResult
unfolding health_of_running
get_stream_health s now = health_in s.status s now

abbrev pub rank : HealthStatus → ℕ
rank healthy = 0
rank warning = 1
rank critical = 2
rank ended_well = 3
rank ended_early = 4

abbrev pub has_status : HealthStatus → String × StreamHealthResult → Bool
has_status status (id, h) = rank h.status == rank status

pub record HealthSummary : Type 0 where
  pub total : ℕ
  pub healthy : ℕ
  pub warning : ℕ
  pub critical : ℕ
  pub completed : ℕ
  pub cancelled : ℕ

unfoldable pub health_entries :
    List Stream → ℕ → Result ClaimError (List (String × StreamHealthResult))
unfolding get_stream_health
health_entries [] now = ok []
health_entries (s ∷ ss) now = do
  h ← get_stream_health s now
  rest ← health_entries ss now
  ok ((s.id, h) ∷ rest)

unfoldable pub summarize : List (String × StreamHealthResult) → HealthSummary
summarize entries = record {
  total = length entries;
  healthy = length (filter (has_status HealthStatus.healthy) entries);
  warning = length (filter (has_status HealthStatus.warning) entries);
  critical = length (filter (has_status HealthStatus.critical) entries);
  completed = length (filter (has_status ended_well) entries);
  cancelled = length (filter (has_status ended_early) entries);
}

unfoldable pub batch_get_stream_health :
    List Stream → ℕ → Result ClaimError (List (String × StreamHealthResult) × HealthSummary)
unfolding health_entries summarize
batch_get_stream_health streams now = do
  entries ← health_entries streams now
  ok (entries, summarize entries)
