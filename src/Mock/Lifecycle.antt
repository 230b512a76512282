-- ===== src/Mock/Lifecycle.antt =====
-- The methods of mock.ts that change a stream's parties, parts and status: `splitStream`,
-- `transferStream`, `pause`, `resume` and `advanceTime`.
use sorostream_sdk.Base.{
  ℕ, ◌+◌, ◌-◌, ◌*◌, ◌/◌, String, Bool, true, false, none, some, max, nat_eq, string_eq, leb,
  if◌then◌else◌,
}
use sorostream_sdk.Base.Int.{ℤ}
use sorostream_sdk.Stream.{Stream, StreamStatus, safe_claimable, active, cancelled, paused}
use sorostream_sdk.Mock.State
use sorostream_sdk.Mock.State.{
  Error, Client, M, pure, throw, ◌>>=◌, ◌>>◌, throw_if, positive, find, require_active, put, lift,
  divide, emit, fresh_id, tx, tx_at, EventData, parties, amount, topped_up, lock, new_recipient,
  no_data, EventType, stream_created, stream_locked, stream_withdrawn, stream_completed,
  stream_cancelled, stream_topped_up, stream_transferred, stream_paused, stream_resumed,
  insufficient_amount, self_stream, amount_not_positive, duration_not_positive, start_time_passed,
  not_active, not_paused, locked, already_locked, rate_not_positive, ratio_not_positive,
  ratio_too_large, not_operator,
}
use sorostream_sdk.Mock.Claimable.{or_else}

-- `mock-tx-split-…` names the one transaction of all three events.
abbrev split_event : EventType → String → String → ℕ → EventData → State.StreamEvent
split_event type origin id now payload = record {
  type = type;
  stream_id = id;
  tx_hash = tx "mock-tx-split-" origin;
  timestamp = now;
  payload = payload;
}

pub record SplitStreamParams : Type 0 where
  pub stream_id : String
  pub recipient_a : String
  pub recipient_b : String
  pub ratio_numerator : ℤ
  pub ratio_denominator : ℤ

-- `remainingDuration` where it is positive, else 0.
abbrev pub remaining_duration : Stream → ℕ → ℕ
remaining_duration s now = s.end_time - max now s.last_withdraw_time

-- A part of a split stream. It ends before `now` where `remainingDuration` is negative.
unfoldable pub part : Stream → ℕ → String → String → ℕ → Stream
part s now id recipient value = record {
  id = id;
  sender = s.sender;
  recipient = recipient;
  token = s.token;
  deposit = value;
  flow_rate = value / max 1 (remaining_duration s now);
  start_time = now;
  end_time = now + s.end_time - max now s.last_withdraw_time;
  last_withdraw_time = now;
  status = active;
  auto_renew = false;
  paused_at = none;
  lock_until = none;
  namespace = none;
  tag = none;
}

-- The original is cancelled before the balance is computed.
unfoldable pub split_stream : ℕ → SplitStreamParams → M (String × String × String)
unfolding part
split_stream now p = do
  s ← find p.stream_id
  require_active s
  numerator ← positive ratio_not_positive p.ratio_numerator
  denominator ← positive ratio_not_positive p.ratio_denominator
  throw_if (leb denominator numerator) ratio_too_large
  put p.stream_id (record s { status = cancelled })
  balance ← lift (safe_claimable s.flow_rate (remaining_duration s now) (some s.deposit))
  let value_a = (balance * numerator) / denominator
  let value_b = (balance * (denominator - numerator)) / denominator
  id_a ← fresh_id
  id_b ← fresh_id
  put id_a (part s now id_a p.recipient_a value_a)
  put id_b (part s now id_b p.recipient_b value_b)
  emit (split_event stream_cancelled p.stream_id p.stream_id now no_data)
  emit (split_event stream_created p.stream_id id_a now (parties s.sender p.recipient_a))
  emit (split_event stream_created p.stream_id id_b now (parties s.sender p.recipient_b))
  pure (tx "mock-tx-split-" p.stream_id, id_a, id_b)

unfoldable pub transfer_stream : ℕ → String → String → M String
transfer_stream now id recipient = do
  s ← find id
  require_active s
  put id (record s { recipient = recipient })
  emit (record {
    type = stream_transferred;
    stream_id = id;
    tx_hash = tx "mock-tx-transfer-" id;
    timestamp = now;
    payload = new_recipient recipient;
  })
  pure (tx "mock-tx-transfer-" id)

unfoldable pub pause_at : Stream → ℕ → Stream
pause_at s now = record s { status = paused; paused_at = some now }

unfoldable pub pause : ℕ → String → M String
unfolding pause_at
pause now id = do
  s ← find id
  require_active s
  put id (pause_at s now)
  emit (record {
    type = stream_paused;
    stream_id = id;
    tx_hash = tx "mock-tx-pause-" id;
    timestamp = now;
    payload = no_data;
  })
  pure (tx "mock-tx-pause-" id)

abbrev is_paused : StreamStatus → Bool
is_paused paused = true
is_paused _ = false

unfoldable pub resume_at : Stream → ℕ → Stream
resume_at s now = record s {
  status = active;
  paused_at = none;
  end_time = s.end_time + now - or_else s.paused_at now;
}

unfoldable pub resume : ℕ → String → M String
unfolding resume_at
resume now id = do
  s ← find id
  throw_if (if is_paused s.status then false else true) not_paused
  put id (resume_at s now)
  emit (record {
    type = stream_resumed;
    stream_id = id;
    tx_hash = tx "mock-tx-resume-" id;
    timestamp = now;
    payload = no_data;
  })
  pure (tx "mock-tx-resume-" id)

unfoldable pub shift_back : Stream → ℕ → Stream
shift_back s seconds = record s {
  start_time = s.start_time - seconds;
  end_time = s.end_time - seconds;
  last_withdraw_time = s.last_withdraw_time - seconds;
}

-- `advanceTime`, for a shift that leaves the times at or after the epoch.
unfoldable pub advance_time : String → ℕ → M (Unit {0})
unfolding shift_back
advance_time id seconds = do s ← find id; put id (shift_back s seconds)
