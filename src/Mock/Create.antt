-- ===== src/Mock/Create.antt =====
-- `createStream` and `lockUntil` of mock.ts. `now` is what `nowSec()` returns in the call.
use sorostream_sdk.Base.{
  ℕ, ◌+◌, ◌/◌, String, Bool, false, ◌&&◌, ◌||◌, not, Option, none, some, nat_eq, string_eq, ◌==◌,
  ltb, leb, if◌then◌else◌,
}
use sorostream_sdk.Base.Int.{ℤ}
use sorostream_sdk.Stream.{Stream, active}
use sorostream_sdk.Mock.State.{
  M, pure, ◌>>=◌, ◌>>◌, throw_if, positive, find, put, emit, fresh_id, tx, tx_at, parties, lock,
  stream_created, stream_locked, insufficient_amount, self_stream, duration_not_positive,
  start_time_passed, already_locked,
}

-- A flag may stand among the parameters or in the options.
pub record WriteOptions : Type 0 where
  pub dry_run : Bool
  pub explain : Bool

-- `start_time_alias` is the `start_time` that the method also reads.
pub record CreateStreamParams : Type 0 where
  pub recipient : String
  pub token : String
  pub amount : ℤ
  pub duration_seconds : ℤ
  pub auto_renew : Bool
  pub start_time : Option ℕ
  pub start_time_alias : Option ℕ
  pub lock_until : Option ℕ
  pub flags : WriteOptions

pub data CreateResult : Type 0 where
  dry_run : CreateResult
  explained : CreateResult
  created : String → String → CreateResult

abbrev pub first_of_two : Option ℕ → Option ℕ → Option ℕ
first_of_two none b = b
first_of_two (some a) b = some a

abbrev pub passed : Option ℕ → ℕ → Bool
passed none now = false
passed (some t) now = ltb t now

unfoldable pub new_stream : ℕ → String → String → CreateStreamParams → ℕ → ℕ → Stream
new_stream now id sender p value duration = record {
  id = id;
  sender = sender;
  recipient = p.recipient;
  token = p.token;
  deposit = value;
  flow_rate = value / duration;
  start_time = now;
  end_time = now + duration;
  last_withdraw_time = now;
  status = active;
  auto_renew = p.auto_renew;
  paused_at = none;
  lock_until = p.lock_until;
  namespace = none;
  tag = none;
}

-- `createStream` past its early returns.
unfoldable pub create_now : ℕ → CreateStreamParams → ℕ → M CreateResult
unfolding new_stream
create_now now p value = do
  duration ← positive duration_not_positive p.duration_seconds
  throw_if (passed (first_of_two p.start_time p.start_time_alias) now) start_time_passed
  id ← fresh_id
  λ c.
      (do
        put id (new_stream now id c.sender_key p value duration)
        emit (record {
          type = stream_created;
          stream_id = id;
          tx_hash = tx "mock-tx-create-" id;
          timestamp = now;
          payload = parties c.sender_key p.recipient;
        })
        pure (created id (tx "mock-tx-create-" id)))
        c

unfoldable pub create_stream : ℕ → CreateStreamParams → WriteOptions → M CreateResult
unfolding create_now
create_stream now p o c =
    (do
      value ← positive insufficient_amount p.amount
      throw_if (not (c.sender_key == "") && p.recipient == c.sender_key) self_stream
      if o.dry_run || p.flags.dry_run
          then pure dry_run
          else if o.explain || p.flags.explain
          then pure explained
          else create_now now p value)
      c

abbrev pub reaches : Option ℕ → ℕ → Bool
reaches none time = false
reaches (some t) time = leb time t

-- The time of the `Date` is in milliseconds.
unfoldable pub lock_until : ℕ → String → ℕ → M String
lock_until now id time_ms = do
  s ← find id
  throw_if (reaches s.lock_until (time_ms / 1000)) already_locked
  put id (record s { lock_until = some (time_ms / 1000) })
  emit (record {
    type = stream_locked;
    stream_id = id;
    tx_hash = tx_at "mock-tx-lock-" id now;
    timestamp = now;
    payload = lock (time_ms / 1000);
  })
  pure (tx_at "mock-tx-lock-" id now)
