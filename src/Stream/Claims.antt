-- ===== src/Stream/Claims.antt =====
-- What `safeClaimable` returns.
use sorostream_sdk.Base.{ℕ, ◌+◌, ◌-◌, ◌*◌, ◌≤◌, ◌≡◌, some, min, arith}
use sorostream_sdk.Base.Result.{ok}
use sorostream_sdk.Stream.{i128_max, safe_claimable}

-- Accrual is additive over adjacent spans of time.
pub mul_span : (f a b c : ℕ) → a ≤ b → b ≤ c → f * (b - a) + f * (c - b) ≡ f * (c - a)
mul_span f a b c h k = grind arith

pub mul_span_mono : (f a b : ℕ) → a ≤ b → f * a ≤ f * b
mul_span_mono f a b h = grind arith

-- With a cap below 2^127 the call never throws, and returns the product or the cap, whichever is
-- smaller.
pub safe_claimable-eq-min :
    (flow elapsed limit : ℕ)
    → limit ≤ i128_max
    → safe_claimable flow elapsed (some limit) ≡ ok (min (flow * elapsed) limit)
unfolding safe_claimable
safe_claimable-eq-min flow elapsed limit h = ground arith
