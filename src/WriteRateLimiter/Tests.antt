-- ===== src/WriteRateLimiter/Tests.antt =====
-- A limiter of two operations a second.
use sorostream_sdk.Base.{ℕ, ◌≡◌, ◌+◌, ◌*◌, ◌≤◌, refl, false, [], ◌∷◌, length, string_eq}
use sorostream_sdk.Base.Dict
use sorostream_sdk.WriteRateLimiter.{
  WriteRateLimiter, new_bucket, bucket_of, acquire, limit_exceeded, delayed, immediate,
}
use sorostream_sdk.WriteRateLimiter.Spacing.{acquire_all, release, release_spacing}
use sorostream_sdk.WriteRateLimiter.Queueing.{acquire_rejected_same}

-- The bucket of `withdraw` is taken at 0, and one caller waits already.
abbrev full : WriteRateLimiter
full = record {
  shared = false;
  max_per_second = 2;
  burst = 1;
  queue_size = 1;
  buckets = ("withdraw", record { theoretical_arrival = 1000; interval = 1000; burst = 0 }) ∷ [];
  waiting = 1;
}

full_rejects : (acquire 10 "withdraw" full).1 ≡ limit_exceeded 1 1
unfolding acquire Dict.get
full_rejects = refl

waits : (acquire 10 "withdraw" (record full { waiting = 0 })).1 ≡ delayed 980
unfolding acquire Dict.get
waits = refl

other_bucket : (acquire 10 "create" full).1 ≡ immediate
unfolding acquire Dict.get
other_bucket = refl

release_spacing_example :
    release (new_bucket 2) 5 + (length {A = ℕ} (7 ∷ 7 ∷ []) + 1) * (new_bucket 2).interval
    ≤ release (acquire_all (5 ∷ 7 ∷ 7 ∷ []) (new_bucket 2)) 9 + (new_bucket 2).burst
release_spacing_example = release_spacing (new_bucket 2) 5 (7 ∷ 7 ∷ []) 9

acquire_rejected_same_example :
    (bucket_of (acquire 10 "withdraw" full).0 "withdraw" ≡ bucket_of full "withdraw")
    × ((acquire 10 "withdraw" full).0.waiting ≡ 1)
acquire_rejected_same_example = acquire_rejected_same 10 "withdraw" full 1 1 full_rejects
