-- ===== src/Projection/Snapshots.antt =====
-- What the timeline of `simulateStream` shows.
use native.Mathlib.Nat.{div-mul-le_self, lt-div-mul-add}
use sorostream_sdk.Base.{
  ℕ, ◌+◌, ◌-◌, ◌*◌, ◌/◌, ◌≤◌, ◌<◌, ◌≡◌, refl, min, max, false, Option, List, [], ◌∷◌, map, nat_eq,
  ◌==◌, ltb, if_elim, All, arith,
}
use sorostream_sdk.Base.Sort.{IsSorted, sort_on-IsSorted}
use sorostream_sdk.Base.Result.{ok}
use sorostream_sdk.Stream.{i128_max}
use sorostream_sdk.Stream.Claims.{mul_span_mono, safe_claimable-eq-min}
use sorostream_sdk.StreamHealth.Pending.{safe_claimable-uncapped}
use sorostream_sdk.Projection.Times.{by_time, Shows, times_of, times_of-Shows, times_of-IsInside}
use sorostream_sdk.Projection.{
  StreamSimulationSnapshot, StreamSimulationResult, snapshot_of, take_snapshots, or_now,
  simulate_stream,
}

module _ (start_time duration flow_rate total : ℕ) where
  abbrev pub streamed_at : ℕ → ℕ
  streamed_at ts = min (flow_rate * min (ts - start_time) duration) total

  abbrev pub snapshot_at : ℕ → StreamSimulationSnapshot
  snapshot_at ts = snapshot_of total ts (streamed_at ts)

  take_snapshots-map :
      (times : List ℕ)
      → total ≤ i128_max
      → take_snapshots start_time duration flow_rate total times ≡ ok (map snapshot_at times)
  unfolding take_snapshots
  take_snapshots-map [] h = refl
  take_snapshots-map (ts ∷ times) h =
      rw
        (
          safe_claimable-eq-min flow_rate (min (ts - start_time) duration) total h,
          take_snapshots-map times h,
        )
        refl

  streamed_at_mono : (a b : ℕ) → a ≤ b → streamed_at a ≤ streamed_at b
  streamed_at_mono a b h = omega (
    arith,
    mul_span_mono flow_rate (min (a - start_time) duration) (min (b - start_time) duration)
        (omega arith),
  )

-- A sorted list stays sorted by a key that grows with it.
map-IsSorted :
    {B : Type 0} (f : ℕ → B) (key : B → ℕ)
    → ((a b : ℕ) → a ≤ b → key (f a) ≤ key (f b))
    → (xs : List ℕ) → IsSorted (λ (x : ℕ). x) false xs
    → IsSorted key false (map f xs)
map-IsSorted f key mono [] h = tt
map-IsSorted f key mono (x ∷ xs) (p, h) = (map-All xs p, map-IsSorted f key mono xs h)
  where
    map-All : (ys : List ℕ) → All (λ y. x ≤ y) ys → All (λ y. key (f x) ≤ key y) (map f ys)
    map-All [] q = tt
    map-All (y ∷ ys) (q, qs) = (mono x y q, map-All ys qs)

-- A snapshot shows the share that has been streamed at its time, and the rest.
pub record IsShare (start_time duration flow_rate total : ℕ) (s : StreamSimulationSnapshot)
    : Type 0 where
  pub streamed : s.streamed ≡ min (flow_rate * min (s.timestamp - start_time) duration) total
  pub split : s.streamed + s.remaining ≡ total
  pub percent : s.percent_complete ≤ 100

percent_le : (a t : ℕ) → a ≤ t → 0 < t → a * 100 / t ≤ 100
percent_le a t h k = grind arith

snapshot_at-IsShare :
    (start_time duration flow_rate total ts : ℕ)
    → IsShare start_time duration flow_rate total
        (snapshot_at start_time duration flow_rate total ts)
snapshot_at-IsShare start_time duration flow_rate total ts = record {
  streamed = refl;
  split = omega arith;
  percent =
      if_elim (λ n. n ≤ 100) (ltb 0 total)
        (λ some_total.
          percent_le (streamed_at start_time duration flow_rate total ts) total (omega arith)
            (ground (arith, some_total)))
        (λ no_total. omega arith);
}

All-map :
    {B : Type 0} (f : ℕ → B) (P : ℕ → Type 0) (Q : B → Type 0)
    → ((t : ℕ) → P t → Q (f t))
    → (ts : List ℕ) → All P ts
    → All Q (map f ts)
All-map f P Q g [] h = tt
All-map f P Q g (t ∷ ts) (p, h) = (g t p, All-map f P Q g ts h)

-- A timeline of `duration` seconds from `start`: it has snapshots at the start, at the end and at each
-- offset of the `rounds` before the end, and none outside; the total is the amount but for the rounding of the rate, each snapshot shows its share
-- of it, and the snapshots are in the order of their times and of what has been streamed.
pub record IsTimeline (offset : ℕ → ℕ) (amount start duration rounds : ℕ)
    (r : StreamSimulationResult) : Type 0 where
  pub begins : r.start_time ≡ start
  pub ends : r.end_time ≡ start + duration
  pub lasts : r.duration_seconds ≡ duration
  pub shown :
      Shows offset start
        (start + duration)
        rounds
        (map (λ (s : StreamSimulationSnapshot). s.timestamp) r.snapshots)
  pub inside :
      All
        (λ (s : StreamSimulationSnapshot). (start ≤ s.timestamp) × (s.timestamp ≤ start + duration))
        r.snapshots
  pub rate : r.flow_rate ≡ amount / r.duration_seconds
  pub total_le : r.total_amount ≤ amount
  pub total_close : amount < r.total_amount + r.duration_seconds
  pub shares : All (IsShare r.start_time r.duration_seconds r.flow_rate r.total_amount) r.snapshots
  pub in_time : IsSorted (λ (s : StreamSimulationSnapshot). s.timestamp) false r.snapshots
  pub rising : IsSorted (λ (s : StreamSimulationSnapshot). s.streamed) false r.snapshots

each-IsShare :
    (start_time duration flow_rate total : ℕ) (times : List ℕ)
    → All
        (IsShare start_time duration flow_rate total)
        (map (snapshot_at start_time duration flow_rate total) times)
each-IsShare start_time duration flow_rate total [] = tt
each-IsShare start_time duration flow_rate total (ts ∷ times) = (
  snapshot_at-IsShare start_time duration flow_rate total ts,
  each-IsShare start_time duration flow_rate total times,
)

-- A positive amount that an i128 holds over a positive duration gives a timeline from the given start,
-- or from now, wherever the offsets of the snapshots are.
pub simulate_stream-IsTimeline :
    (offset : ℕ → ℕ) (amount duration : ℕ) (start_param : Option ℕ) (snapshot_count now : ℕ)
    → 0 < amount
    → 0 < duration
    → amount ≤ i128_max
    → (r : StreamSimulationResult) × (simulate_stream offset amount duration start_param
          snapshot_count now
        ≡ ok r)
      × IsTimeline offset amount (or_now start_param now) duration (max 1 snapshot_count) r
unfolding simulate_stream
simulate_stream-IsTimeline offset amount duration start_param snapshot_count now p q fits =
    let start = or_now start_param now in
    let rate = amount / duration in
    let total = rate * duration in
    let le : total ≤ amount = div-mul-le_self amount duration in
    let close : amount < total + duration = lt-div-mul-add {a = amount} {b = duration} q in
    let times = times_of offset start (start + duration) (max 1 snapshot_count) in
    let sorted : IsSorted (λ (t : ℕ). t) false times = sort_on-IsSorted by_time false _ in
    let some_amount : (amount == 0) ≡ false = ground arith in
    let some_time : (duration == 0) ≡ false = ground arith in
    (
      record {
        start_time = start;
        end_time = start + duration;
        duration_seconds = duration;
        flow_rate = rate;
        total_amount = total;
        snapshots = map (snapshot_at start duration rate total) times;
      },
      rw
          (
            some_amount,
            some_time,
            safe_claimable-uncapped rate duration (omega (arith, le, fits)),
            take_snapshots-map start duration rate total times (omega (arith, le, fits)),
          )
          refl,
      record {
        begins = refl;
        ends = refl;
        lasts = refl;
        shown =
            times_of-Shows offset start (start + duration) (snapshot_at start duration rate total)
              (λ s. s.timestamp) (max 1 snapshot_count) (λ t. refl);
        inside =
            All-map (snapshot_at start duration rate total)
              (λ t. (start ≤ t) × (t ≤ start + duration))
              (λ s. (start ≤ s.timestamp) × (s.timestamp ≤ start + duration)) (λ t h. h) times
              (times_of-IsInside offset start (start + duration) (max 1 snapshot_count)
                (omega arith));
        rate = refl;
        total_le = le;
        total_close = close;
        shares = each-IsShare start duration rate total times;
        in_time =
            map-IsSorted (snapshot_at start duration rate total) (λ s. s.timestamp) (λ a b h. h)
              times sorted;
        rising =
            map-IsSorted (snapshot_at start duration rate total) (λ s. s.streamed)
              (streamed_at_mono start duration rate total) times sorted;
      },
    )
