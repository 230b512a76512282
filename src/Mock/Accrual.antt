-- ===== src/Mock/Accrual.antt =====
-- How the claimable balance of a stream of the mock moves with time, pauses, locks and withdrawals.
use sorostream_sdk.Base.{
  ℕ, ◌+◌, ◌-◌, ◌*◌, ◌≤◌, ◌<◌, ◌≡◌, refl, sym, ap, ◌∙◌, false, Option, none, some, min, arith,
}
use sorostream_sdk.Base.Result.{ok}
use sorostream_sdk.Stream.{Stream, active, paused, i128_max}
use sorostream_sdk.Stream.Claims.{safe_claimable-eq-min, mul_span_mono}
use sorostream_sdk.Mock.Claimable.{before, claimable_at}
use sorostream_sdk.Mock.Flows.{withdraw_from}
use sorostream_sdk.Mock.Lifecycle.{pause_at, resume_at}

-- The flow from the last withdrawal until `t`, at most the deposit.
abbrev pub owed : Stream → ℕ → ℕ
owed s t = min (s.flow_rate * (t - s.last_withdraw_time)) s.deposit

module _ (s : Stream) (t : ℕ) (fits : s.deposit ≤ i128_max) where
  pub claimable_active :
      s.status ≡ active
      → before t s.lock_until ≡ false
      → claimable_at s t ≡ ok (owed s (min t s.end_time))
  unfolding claimable_at
  claimable_active a b =
      ground (
        arith,
        safe_claimable-eq-min s.flow_rate (min t s.end_time - s.last_withdraw_time) s.deposit,
      )

  claimable_paused :
      (p : ℕ)
      → s.status ≡ paused
      → before t s.lock_until ≡ false
      → s.paused_at ≡ some p
      → claimable_at s t ≡ ok (owed s (min p s.end_time))
  unfolding claimable_at
  claimable_paused p a b e =
      ground (
        arith,
        safe_claimable-eq-min s.flow_rate (min p s.end_time - s.last_withdraw_time) s.deposit,
      )

owed_mono : (s : Stream) (t u : ℕ) → t ≤ u → owed s t ≤ owed s u
owed_mono s t u h =
    ground (arith, mul_span_mono s.flow_rate (t - s.last_withdraw_time) (u - s.last_withdraw_time))

not_before_later :
    (t u : ℕ) (lock : Option ℕ) → t ≤ u → before t lock ≡ false → before u lock ≡ false
not_before_later t u none h b = refl
not_before_later t u (some l) h b = ground arith

-- The claim of an active, unlocked stream, with a deposit that fits an i128, never falls as time
-- passes, and never exceeds the deposit.
pub claimable_at_mono :
    (s : Stream) (t u : ℕ)
    → s.deposit ≤ i128_max
    → s.status ≡ active
    → before t s.lock_until ≡ false
    → t ≤ u
    → (a : ℕ) × (b : ℕ) × (claimable_at s t ≡ ok a)
      × (claimable_at s u ≡ ok b)
      × (a ≤ b)
      × (b ≤ s.deposit)
claimable_at_mono s t u fits act free h = (
  owed s (min t s.end_time),
  owed s (min u s.end_time),
  claimable_active s t fits act free,
  claimable_active s u fits act (not_before_later t u s.lock_until h free),
  owed_mono s (min t s.end_time) (min u s.end_time) (omega arith),
  omega arith,
)

-- Right after a withdrawal before the end nothing is claimable, and a later claim, when no lock
-- holds, counts from that withdrawal. The deposit fits an i128.
pub claimable_at-withdraw_from :
    (s : Stream) (now t : ℕ)
    → s.deposit ≤ i128_max
    → now < s.end_time
    → now ≤ t
    → before t s.lock_until ≡ false
    → (claimable_at (withdraw_from s now) t
        ≡ ok (min (s.flow_rate * (min t s.end_time - now)) s.deposit))
      × (claimable_at (withdraw_from s now) now ≡ ok 0)
unfolding withdraw_from claimable_at
claimable_at-withdraw_from s now t fits early h free = (
  ground
      (arith, safe_claimable-eq-min s.flow_rate (min t s.end_time - min now s.end_time) s.deposit),
  ground (
    arith,
    safe_claimable-eq-min s.flow_rate (min now s.end_time - min now s.end_time) s.deposit,
  ),
)

-- A paused stream accrues nothing: at every later time its claim is the one at the pause. The stream
-- was active and unlocked, with a deposit that fits an i128.
pub pause_freezes :
    (s : Stream) (p t : ℕ)
    → s.deposit ≤ i128_max
    → s.status ≡ active
    → before p s.lock_until ≡ false
    → p ≤ t
    → claimable_at (pause_at s p) t ≡ claimable_at s p
unfolding pause_at
pause_freezes s p t fits act free h =
    claimable_paused (pause_at s p) t fits p refl (not_before_later p t s.lock_until h free) refl
    ∙ sym (claimable_active s p fits act free)

-- The freeze ends with the pause: after `resume`, with no lock and a deposit that fits an i128, the
-- claim counts the paused seconds too, as if the stream had never been paused and ended later by
-- the length of the pause.
pub resume_counts_pause :
    (s : Stream) (p r t : ℕ)
    → s.deposit ≤ i128_max
    → before r s.lock_until ≡ false
    → p ≤ r
    → r ≤ t
    → claimable_at (resume_at (pause_at s p) r) t
      ≡ ok (min (s.flow_rate * (min t (s.end_time + (r - p)) - s.last_withdraw_time)) s.deposit)
unfolding pause_at resume_at
resume_counts_pause s p r t fits free h k =
    let e : s.end_time + r - p ≡ s.end_time + (r - p) = omega arith in
    claimable_active (resume_at (pause_at s p) r) t fits refl
      (not_before_later r t s.lock_until k free)
    ∙ ap (λ n. ok (min (s.flow_rate * (min t n - s.last_withdraw_time)) s.deposit)) e
