-- ===== src/Portfolio/Balance.antt =====
-- What the totals over streams come to.
use sorostream_sdk.Base.{
  ℕ, ◌+◌, ◌-◌, ◌*◌, ◌/◌, ◌≤◌, ◌≡◌, refl, inl, inr, min, List, [], ◌∷◌, nat_eq, length, sum_of, All,
  Bool-cases, arith,
}
use sorostream_sdk.Base.Result.{ok}
use sorostream_sdk.Stream.{Stream, i128_max}
use sorostream_sdk.Stream.Claims.{mul_span_mono, safe_claimable-eq-min}
use sorostream_sdk.Portfolio.{claimable_now, is_active}
use sorostream_sdk.Portfolio.Totals.{StreamTotals, remaining_of, add_totals, total_value_streamed}

-- A deposit that the contract can hold.
abbrev pub Fits : Stream → Type 0
Fits s = s.deposit ≤ i128_max

-- The readings of a stream that fits.
pub record Readings (s : Stream) (now : ℕ) : Type 0 where
  pub claimable : ℕ
  pub remaining : ℕ
  pub claims : claimable_now s now ≡ ok claimable
  pub remains : remaining_of s ≡ ok remaining
  pub claimable_le : claimable ≤ remaining
  pub remaining_le : remaining ≤ s.deposit

min_le_min : (f a b c : ℕ) → a ≤ b → min (f * a) c ≤ min (f * b) c
min_le_min f a b c h = omega (arith, mul_span_mono f a b h)

pub readings : (s : Stream) (now : ℕ) → Fits s → Readings s now
unfolding claimable_now
readings s now fits =
    let until = min (now / 1000) s.end_time - s.last_withdraw_time in
    let span = s.end_time - s.last_withdraw_time in
    let least : min (s.flow_rate * until) s.deposit ≤ min (s.flow_rate * span) s.deposit =
      min_le_min s.flow_rate until span s.deposit (omega arith) in
    elim (Bool-cases (is_active s.status)) [
      | inl on ↦ record {
        claimable = min (s.flow_rate * until) s.deposit;
        remaining = min (s.flow_rate * span) s.deposit;
        claims = rw on (safe_claimable-eq-min s.flow_rate until s.deposit fits);
        remains = safe_claimable-eq-min s.flow_rate span s.deposit fits;
        claimable_le = least;
        remaining_le = omega arith;
      }
      | inr off ↦ record {
        claimable = 0;
        remaining = min (s.flow_rate * span) s.deposit;
        claims = rw off refl;
        remains = safe_claimable-eq-min s.flow_rate span s.deposit fits;
        claimable_le = omega arith;
        remaining_le = omega arith;
      }
    ]

-- What the loop adds to the totals.
record Added (ss : List Stream) (now : ℕ) (t : StreamTotals) : Type 0 where
  totals : StreamTotals
  result : add_totals ss now t ≡ ok totals
  balanced :
      totals.total_claimed + totals.total_remaining + t.total_deposited
      ≡ t.total_claimed + t.total_remaining + totals.total_deposited
  backed : totals.total_claimable + t.total_remaining ≤ totals.total_remaining + t.total_claimable
  deposits : totals.total_deposited ≡ t.total_deposited + sum_of (λ (s : Stream). s.deposit) ss
  counts : totals.total_streams ≡ t.total_streams

add_totals-Added : (ss : List Stream) (now : ℕ) (t : StreamTotals) → All Fits ss → Added ss now t
unfolding add_totals
add_totals-Added [] now t h = record {
  totals = t;
  result = refl;
  balanced = omega arith;
  backed = omega arith;
  deposits = omega arith;
  counts = refl;
}
add_totals-Added (s ∷ ss) now t (fits, h) =
    let r : Readings s now = readings s now fits in
    let t' : StreamTotals = record t {
      total_deposited = t.total_deposited + s.deposit;
      total_claimable = t.total_claimable + r.claimable;
      total_claimed = t.total_claimed + (s.deposit - r.remaining);
      total_remaining = t.total_remaining + r.remaining;
    } in
    let a : Added ss now t' = add_totals-Added ss now t' h in
    record {
      totals = a.totals;
      result = rw (r.claims, r.remains) a.result;
      balanced = omega (arith, a.balanced, r.remaining_le);
      backed = omega (arith, a.backed, r.claimable_le);
      deposits = omega (arith, a.deposits);
      counts = a.counts;
    }

-- If no deposit exceeds the i128 maximum, the totals are returned: what was claimed and what remains
-- add up to what was deposited, which is the sum of the deposits, and what can be claimed now is at
-- most what remains.
pub total_value_streamed-Balanced :
    (streams : List Stream) (now : ℕ)
    → All Fits streams
    → (t : StreamTotals) × (total_value_streamed streams now ≡ ok t)
      × (t.total_claimed + t.total_remaining ≡ t.total_deposited)
      × (t.total_claimable ≤ t.total_remaining)
      × (t.total_deposited ≡ sum_of (λ (s : Stream). s.deposit) streams)
      × (t.total_streams ≡ length streams)
unfolding total_value_streamed
total_value_streamed-Balanced streams now h =
    let a : Added streams now _ = add_totals-Added streams now _ h in
    (
      a.totals,
      a.result,
      omega (arith, a.balanced),
      omega (arith, a.backed),
      omega (arith, a.deposits),
      a.counts,
    )
