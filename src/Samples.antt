-- ===== src/Samples.antt =====
-- Concrete streams for the tests of the components.
use sorostream_sdk.Base.{none, false}
use sorostream_sdk.Stream.{Stream, active}

-- Ten units a second for a hundred seconds, fully funded.
abbrev pub salary : Stream
salary = record {
  id = "1";
  sender = "alice";
  recipient = "bob";
  token = "usdc";
  deposit = 1000;
  flow_rate = 10;
  start_time = 100;
  end_time = 200;
  last_withdraw_time = 100;
  status = active;
  auto_renew = false;
  paused_at = none;
  lock_until = none;
  namespace = none;
  tag = none;
}
