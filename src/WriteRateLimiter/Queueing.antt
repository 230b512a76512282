-- ===== src/WriteRateLimiter/Queueing.antt =====
-- How many operations wait, and which are rejected.
use sorostream_sdk.Base.{
  ℕ, ◌*◌, ◌≤◌, ◌<◌, ◌≡◌, ◌↔◌, refl, String, string_eq, nat_eq, if◌then◌else◌, arith,
}
use sorostream_sdk.Base.Dict
use sorostream_sdk.WriteRateLimiter.{
  WriteRateLimiter, TokenBucket, acquire, bucket_of, bucket_key, delay, limit_exceeded, keep_bucket,
}

-- A call is rejected exactly when it would have to wait, the queue is limited and it is full; the
-- error then carries the number that waits and the limit.
pub acquire_rejects_iff :
    (now : ℕ) (op : String) (l : WriteRateLimiter) (n q : ℕ)
    → ((acquire now op l).1 ≡ limit_exceeded n q) ↔ (
        (0 < delay (bucket_of l op) (now * l.max_per_second))
        × (0 < l.queue_size)
        × (l.queue_size ≤ l.waiting)
        × (n ≡ l.waiting)
        × (q ≡ l.queue_size))
unfolding acquire
acquire_rejects_iff now op l n q = ground arith

acquire_rejected :
    (now : ℕ) (op : String) (l : WriteRateLimiter) (n q : ℕ)
    → (acquire now op l).1 ≡ limit_exceeded n q
    → (acquire now op l).0 ≡ keep_bucket l op (bucket_of l op)
unfolding acquire
acquire_rejected now op l n q h = ground arith

keep_bucket-bucket_of :
    (op : String) (l : WriteRateLimiter) (b : TokenBucket) → bucket_of (keep_bucket l op b) op ≡ b
unfolding bucket_of bucket_key
keep_bucket-bucket_of op l b =
    rw (Dict.get-set_self (if l.shared then "__shared__" else op) b l.buckets)

-- A rejected call takes no slot: the next call of the operation finds the bucket, and the queue, as
-- they were.
pub acquire_rejected_same :
    (now : ℕ) (op : String) (l : WriteRateLimiter) (n q : ℕ)
    → (acquire now op l).1 ≡ limit_exceeded n q
    → (bucket_of (acquire now op l).0 op ≡ bucket_of l op)
      × ((acquire now op l).0.waiting ≡ l.waiting)
acquire_rejected_same now op l n q h =
    rw (acquire_rejected now op l n q h) (keep_bucket-bucket_of op l (bucket_of l op), refl)

-- The queue never holds more than its size.
pub acquire-waiting-le :
    (now : ℕ) (op : String) (l : WriteRateLimiter)
    → 0 < l.queue_size
    → l.waiting ≤ l.queue_size
    → ((acquire now op l).0.waiting ≤ l.queue_size)
      × ((acquire now op l).0.queue_size ≡ l.queue_size)
unfolding acquire
acquire-waiting-le now op l h k = ground arith
