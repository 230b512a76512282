-- ===== src/WriteRateLimiter.antt =====
-- writeRateLimiter.ts. The source divides a second by `maxPerSecond`; here a millisecond is
-- `max_per_second` units of time, so that an interval is 1000 units and all is exact. `now` is what
-- `Date.now()` returns, in milliseconds, the same at each reading of one call. A rate is a whole
-- number of operations per second.
pub mod Spacing
pub mod Queueing
mod Tests
use sorostream_sdk.Base.{
  ℕ, ◌+◌, ◌-◌, ◌*◌, String, Bool, true, false, ◌&&◌, Option, none, some, List, [], ◌∷◌, max, nat_eq,
  string_eq, ◌==◌, ltb, leb, if◌then◌else◌,
}
use sorostream_sdk.Base.Dict
use sorostream_sdk.Base.Dict.{Dict}

pub record TokenBucket : Type 0 where
  pub theoretical_arrival : ℕ
  pub interval : ℕ
  pub burst : ℕ

-- `burst` operations may run back to back before throttling starts.
unfoldable pub new_bucket : ℕ → TokenBucket
new_bucket burst = record {
  theoretical_arrival = 0;
  interval = 1000;
  burst = 1000 * (max 1 burst - 1);
}

-- `Math.max(0, Math.max(theoreticalArrival, now) - burstMs - now)`, at a time in units.
unfoldable pub delay : TokenBucket → ℕ → ℕ
delay b now = max b.theoretical_arrival now - (b.burst + now)

-- `acquire`, up to its timer: the bucket, and how long the caller waits.
unfoldable pub acquire_slot : ℕ → TokenBucket → TokenBucket × ℕ
unfolding delay
acquire_slot now b =
    (record b { theoretical_arrival = max b.theoretical_arrival now + b.interval }, delay b now)

pub record WriteRateLimiter : Type 0 where
  pub shared : Bool
  pub max_per_second : ℕ
  pub burst : ℕ
  pub queue_size : ℕ
  pub buckets : Dict String TokenBucket
  pub waiting : ℕ

pub record WriteRateLimitOptions : Type 0 where
  pub max_per_second : ℕ
  pub burst : Option ℕ
  pub queue_size : Option ℕ
  pub shared : Option Bool

abbrev pub or_default {ℓ} : {A : Type ℓ} → Option A → A → A
or_default none d = d
or_default (some a) d = a

-- The constructor throws at a rate that is not positive.
unfoldable pub create : WriteRateLimitOptions → Option WriteRateLimiter
create o =
    if o.max_per_second == 0
    then none
    else some (record {
      shared = or_default o.shared false;
      max_per_second = o.max_per_second;
      burst = or_default o.burst 1;
      queue_size = or_default o.queue_size 10;
      buckets = [];
      waiting = 0;
    })

unfoldable pub bucket_key : WriteRateLimiter → String → String
bucket_key l operation = if l.shared then "__shared__" else operation

abbrev found_bucket : Option TokenBucket → ℕ → TokenBucket
found_bucket none burst = new_bucket burst
found_bucket (some b) burst = b

-- The bucket of an operation, made on its first use.
unfoldable pub bucket_of : WriteRateLimiter → String → TokenBucket
unfolding bucket_key new_bucket
bucket_of l operation = found_bucket (Dict.get (bucket_key l operation) l.buckets) l.burst

pub data Slot : Type 0 where
  immediate : Slot
  delayed : ℕ → Slot
  limit_exceeded : ℕ → ℕ → Slot

abbrev keep_bucket : WriteRateLimiter → String → TokenBucket → WriteRateLimiter
keep_bucket l operation b = record l { buckets = Dict.set (bucket_key l operation) b l.buckets }

-- `acquire`, up to the wait in the bucket. A rejected call has made its bucket.
unfoldable pub acquire : ℕ → String → WriteRateLimiter → WriteRateLimiter × Slot
unfolding bucket_of bucket_key acquire_slot delay
acquire now operation l =
    let b = bucket_of l operation in
    let t = now * l.max_per_second in
    let taken = keep_bucket l operation (acquire_slot t b).0 in
    if delay b t == 0
    then (taken, immediate)
    else if ltb 0 l.queue_size && leb l.queue_size l.waiting
    then (keep_bucket l operation b, limit_exceeded l.waiting l.queue_size)
    else (record taken { waiting = l.waiting + 1 }, delayed (delay b t))

-- The `finally` of a delayed call.
unfoldable pub wait_over : WriteRateLimiter → WriteRateLimiter
wait_over l = record l { waiting = l.waiting - 1 }
