-- ===== src/WriteRateLimiter/Spacing.antt =====
-- How far apart a bucket lets operations run.
use sorostream_sdk.Base.{
  ℕ, zero, suc, ◌+◌, ◌-◌, ◌*◌, ◌≤◌, ◌≡◌, refl, List, [], ◌∷◌, length, max, arith,
}
use sorostream_sdk.WriteRateLimiter.{TokenBucket, new_bucket, delay, acquire_slot}

-- The bucket after operations at the given times.
abbrev pub acquire_all : List ℕ → TokenBucket → TokenBucket
acquire_all [] b = b
acquire_all (now ∷ times) b = acquire_all times (acquire_slot now b).0

-- When an operation that asks at `now` runs.
abbrev pub release : TokenBucket → ℕ → ℕ
release b now = now + delay b now

acquire_all-arrival :
    (times : List ℕ) (b : TokenBucket)
    → (b.theoretical_arrival + length times * b.interval
        ≤ (acquire_all times b).theoretical_arrival)
      × ((acquire_all times b).burst ≡ b.burst)
      × ((acquire_all times b).interval ≡ b.interval)
unfolding acquire_slot
acquire_all-arrival [] b = (omega arith, refl, refl)
acquire_all-arrival (now ∷ times) b =
    let (far, same_burst, same_interval) = acquire_all-arrival times (acquire_slot now b).0 in
    (grind arith, same_burst, same_interval)

-- Whatever the times at which they ask, of any two operations the later runs after the earlier by an
-- interval for each operation from the one to the other, less the burst allowance.
pub release_spacing :
    (b : TokenBucket) (first : ℕ) (between : List ℕ) (last : ℕ)
    → release b first + (length between + 1) * b.interval
      ≤ release (acquire_all (first ∷ between) b) last + b.burst
unfolding delay acquire_slot
release_spacing b first between last =
    let (far, same_burst, same_interval) = acquire_all-arrival between (acquire_slot first b).0 in
    omega (arith, far, same_burst, same_interval)

abbrev pub repeated : ℕ → ℕ → List ℕ
repeated zero now = []
repeated (suc n) now = now ∷ repeated n now

repeated-arrival :
    (n now : ℕ) (b : TokenBucket)
    → now ≤ b.theoretical_arrival
    → ((acquire_all (repeated n now) b).theoretical_arrival
        ≡ b.theoretical_arrival + n * b.interval)
      × ((acquire_all (repeated n now) b).burst ≡ b.burst)
unfolding acquire_slot
repeated-arrival zero now b h = (omega arith, refl)
repeated-arrival (suc n) now b h =
    let (far, same) = repeated-arrival n now (acquire_slot now b).0 (omega arith) in
    (grind (arith, far), same)

-- Of operations that ask a new bucket at one time, the first ones of the burst do not wait, and each
-- further one waits an interval of 1000 units longer.
pub new_bucket_burst :
    (burst n now : ℕ)
    → delay (acquire_all (repeated n now) (new_bucket burst)) now
      ≡ n * 1000 - 1000 * (max 1 burst - 1)
unfolding delay new_bucket acquire_slot
new_bucket_burst burst zero now = omega arith
new_bucket_burst burst (suc n) now =
    let (far, same) =
      repeated-arrival n now (acquire_slot now (new_bucket burst)).0 (omega arith) in
    omega (arith, far, same)
