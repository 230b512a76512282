-- ===== src/Mock/Flows.antt =====
-- The methods of mock.ts that move a stream's funds: `withdraw`, `cancelStream`, `topUp`,
-- `batchCancel` and `updateFlowRate`. The first flag is the `explain` of the parameters or options.
use sorostream_sdk.Base.{
  ℕ, ◌+◌, ◌-◌, String, Bool, true, false, some, List, [], ◌∷◌, min, nat_eq, string_eq, leb,
  if◌then◌else◌,
}
use sorostream_sdk.Base.Int.{ℤ}
use sorostream_sdk.Stream.{Stream, StreamStatus, safe_claimable, active, cancelled, completed}
use sorostream_sdk.Mock.State
use sorostream_sdk.Mock.State.{
  Error, Client, M, pure, throw, ◌>>=◌, ◌>>◌, throw_if, positive, find, require_active, put, lift,
  divide, emit, fresh_id, tx, tx_at, EventData, parties, amount, topped_up, lock, new_recipient,
  no_data, EventType, stream_created, stream_locked, stream_withdrawn, stream_completed,
  stream_cancelled, stream_topped_up, stream_transferred, stream_paused, stream_resumed,
  insufficient_amount, self_stream, amount_not_positive, duration_not_positive, start_time_passed,
  not_active, not_paused, locked, already_locked, rate_not_positive, ratio_not_positive,
  ratio_too_large, not_operator,
}
use sorostream_sdk.Mock.Claimable.{before, claimable_at}

pub data WithdrawResult : Type 0 where
  explained : WithdrawResult
  withdrawn : String → ℕ → WithdrawResult

-- `newStatus` of a withdrawal that moves the last withdrawal to `time`.
abbrev pub status_after : Stream → ℕ → StreamStatus
status_after s time = if leb s.end_time time then completed else active

unfoldable pub withdraw_from : Stream → ℕ → Stream
withdraw_from s now = record s {
  last_withdraw_time = min now s.end_time;
  status = status_after s (min now s.end_time);
}

abbrev announce_completion : StreamStatus → String → ℕ → M (Unit {0})
announce_completion completed id now = emit (record {
  type = stream_completed;
  stream_id = id;
  tx_hash = tx "mock-tx-complete-" id;
  timestamp = now;
  payload = no_data;
})
announce_completion _ id now = pure tt

unfoldable pub withdraw : ℕ → Bool → String → M WithdrawResult
unfolding withdraw_from claimable_at
withdraw now true id = pure explained
withdraw now false id = do
  s ← find id
  require_active s
  value ← lift (claimable_at s now)
  put id (withdraw_from s now)
  emit (record {
    type = stream_withdrawn;
    stream_id = id;
    tx_hash = tx_at "mock-tx-withdraw-" id now;
    timestamp = now;
    payload = amount value;
  })
  announce_completion (status_after s (min now s.end_time)) id now
  pure (withdrawn (tx_at "mock-tx-withdraw-" id now) value)

-- A hash, or the object of a dry run.
pub data TxResult : Type 0 where
  explained : TxResult
  sent : String → TxResult

abbrev cancel_event : String → ℕ → State.StreamEvent
cancel_event id now = record {
  type = stream_cancelled;
  stream_id = id;
  tx_hash = tx "mock-tx-cancel-" id;
  timestamp = now;
  payload = no_data;
}

unfoldable pub cancel_stream : ℕ → Bool → String → M TxResult
cancel_stream now true id = pure explained
cancel_stream now false id = do
  s ← find id
  require_active s
  throw_if (before now s.lock_until) locked
  put id (record s { status = cancelled })
  emit (cancel_event id now)
  pure (sent (tx "mock-tx-cancel-" id))

pub data TopUpResult : Type 0 where
  explained : TopUpResult
  topped : String → ℕ → TopUpResult

unfoldable pub top_up : ℕ → Bool → String → ℤ → M TopUpResult
top_up now true id p = pure explained
top_up now false id p = do
  value ← positive amount_not_positive p
  s ← find id
  require_active s
  extra ← divide value s.flow_rate
  put id (record s { deposit = s.deposit + value; end_time = s.end_time + extra })
  emit (record {
    type = stream_topped_up;
    stream_id = id;
    tx_hash = tx "mock-tx-topup-" id;
    timestamp = now;
    payload = topped_up value (s.end_time + extra);
  })
  pure (topped (tx "mock-tx-topup-" id) (s.end_time + extra))

unfoldable pub top_up_stream : ℕ → String → ℤ → M TopUpResult
top_up_stream now id p = top_up now false id p

-- The loop of `batchCancel`: a throw ends it, and what it has cancelled stays cancelled. Locks are
-- not looked at.
unfoldable pub cancel_each : ℕ → List String → M (Unit {0})
cancel_each now [] = pure tt
cancel_each now (id ∷ ids) = do
  s ← find id
  require_active s
  put id (record s { status = cancelled })
  emit (cancel_event id now)
  cancel_each now ids

unfoldable pub batch_cancel : ℕ → List String → M (String × List String)
unfolding cancel_each
batch_cancel now ids = do cancel_each now ids; pure ("mock-tx-batch-cancel", ids)

unfoldable pub update_flow_rate : ℕ → String → ℤ → M String
update_flow_rate now id p = do
  rate ← positive rate_not_positive p
  s ← find id
  require_active s
  streamed ← lift (safe_claimable s.flow_rate (now - s.start_time) (some s.deposit))
  seconds ← divide (s.deposit - streamed) rate
  put id (record s { flow_rate = rate; end_time = now + seconds })
  pure (tx "mock-tx-update-fr-" id)
