-- ===== src/Portfolio.antt =====
-- The readings of one stream in utils.ts, by the local clock, and the reports over many streams. The
-- clock is an argument, `Date.now()` in milliseconds; times of streams are integral seconds.
pub mod Totals
pub mod Select
pub mod Balance
pub mod Groups
pub mod Funding
mod Tests
use sorostream_sdk.Base.{
  ℕ, ◌+◌, ◌-◌, ◌*◌, ◌/◌, min, Bool, true, false, ◌&&◌, ◌||◌, not, some, none, List, [], ◌∷◌, nat_eq,
  ◌==◌, ltb, if◌then◌else◌,
}
use sorostream_sdk.Base.Result.{Result, ok, ◌>>=◌}
use sorostream_sdk.Stream.{
  Stream, StreamStatus, ClaimError, safe_claimable, active, cancelled, completed, paused,
}

-- `s.status === 'Active'`
abbrev pub is_active : StreamStatus → Bool
is_active active = true
is_active cancelled = false
is_active completed = false
is_active paused = false

unfoldable pub is_expired : Stream → ℕ → Bool
is_expired s now = ltb (s.end_time * 1000) now

unfoldable pub time_until_stream_end : Stream → ℕ → ℕ
time_until_stream_end s now = s.end_time - now / 1000

unfoldable pub claimable_now : Stream → ℕ → Result ClaimError ℕ
claimable_now s now =
    if is_active s.status
    then safe_claimable s.flow_rate (min (now / 1000) s.end_time - s.last_withdraw_time)
        (some s.deposit)
    else ok 0

unfoldable pub is_stream_expiring : Stream → ℕ → ℕ → Bool
unfolding time_until_stream_end
is_stream_expiring s threshold now =
    is_active s.status
    && (ltb 0 (time_until_stream_end s now) && ltb (time_until_stream_end s now) threshold)

-- A withdrawal in the future makes the difference negative, which is not above a threshold.
unfoldable pub is_stream_stalled : Stream → ℕ → ℕ → Bool
is_stream_stalled s threshold now =
    is_active s.status && ltb threshold (now / 1000 - s.last_withdraw_time)

unfoldable pub is_stream_underfunded : Stream → Result ClaimError Bool
is_stream_underfunded s = if not (is_active s.status) || s.flow_rate == 0 then ok false else (do
  streamed ← safe_claimable s.flow_rate (s.last_withdraw_time - s.start_time) (some s.deposit)
  expected ← safe_claimable s.flow_rate (s.end_time - s.last_withdraw_time) none
  ok (ltb (s.deposit - streamed) expected))

pub record StreamHealthReport : Type 0 where
  pub expiring : ℕ
  pub stalled : ℕ
  pub underfunded : ℕ
  pub total_active : ℕ

abbrev pub count_if : Bool → ℕ
count_if true = 1
count_if false = 0

abbrev add_report : Stream → ℕ → ℕ → ℕ → StreamHealthReport → Result ClaimError StreamHealthReport
add_report s expiring_threshold stale_threshold now r =
    if is_active s.status
    then (do
      short ← is_stream_underfunded s
      ok (record {
        expiring = r.expiring + count_if (is_stream_expiring s expiring_threshold now);
        stalled = r.stalled + count_if (is_stream_stalled s stale_threshold now);
        underfunded = r.underfunded + count_if short;
        total_active = r.total_active + 1;
      }))
    else ok r

abbrev report_from :
    List Stream → ℕ → ℕ → ℕ → StreamHealthReport → Result ClaimError StreamHealthReport
report_from [] expiring_threshold stale_threshold now r = ok r
report_from (s ∷ ss) expiring_threshold stale_threshold now r = do
  r' ← add_report s expiring_threshold stale_threshold now r
  report_from ss expiring_threshold stale_threshold now r'

unfoldable pub stream_health_summary :
    List Stream → ℕ → ℕ → ℕ → Result ClaimError StreamHealthReport
unfolding is_stream_expiring is_stream_stalled is_stream_underfunded
stream_health_summary streams expiring_threshold stale_threshold now =
    report_from streams expiring_threshold stale_threshold now
      (record { expiring = 0; stalled = 0; underfunded = 0; total_active = 0 })
