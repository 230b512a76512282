-- ===== src/Vesting/Schedule.antt =====
-- The schedule against the plain accrual, and its milestones.
use sorostream_sdk.Base.{
  ℕ, ◌+◌, ◌-◌, ◌*◌, ◌/◌, ◌≤◌, ◌≡◌, inl, inr, refl, List, [], ◌∷◌, min, max, ltb, leb, if◌then◌else◌,
  Bool-cases, All, arith,
}
use sorostream_sdk.Base.Result.{ok}
use sorostream_sdk.Stream.{Stream, i128_max}
use sorostream_sdk.Stream.Claims.{safe_claimable-eq-min, mul_span_mono}
use sorostream_sdk.Vesting.{
  Milestone, VestingSchedule, claim, effective, cliff_milestone, percent_milestones, insert_by_time,
  sort_by_time, calculate_vesting_schedule,
}

-- What has streamed by `now`, with no cliff.
abbrev pub streamed : Stream → ℕ → ℕ
streamed s now = min (s.flow_rate * (min now s.end_time - s.start_time)) s.deposit

-- Before the end of the cliff nothing is claimable. From then on all that has streamed since the
-- start is, as if there had been no cliff.
effective_lem :
    (s : Stream) (cliff now : ℕ)
    → s.deposit ≤ i128_max
    → s.start_time ≤ s.end_time
    → effective s cliff now (min (s.flow_rate * (s.end_time - s.start_time)) s.deposit)
      ≡ ok (if ltb now (s.start_time + cliff) then 0 else streamed s now)
unfolding effective
effective_lem s cliff now fits ordered =
    let seconds = cliff + (min now s.end_time - max (s.start_time + cliff) s.start_time) in
    elim (Bool-cases (ltb now (s.start_time + cliff))) [
      | inl early ↦ ground (arith, early)
      | inr late ↦ elim (Bool-cases (leb s.end_time now)) [
        | inl over ↦
            let all : min now s.end_time - s.start_time ≡ s.end_time - s.start_time =
              ground (arith, over) in
            rw (late, over, all)
        | inr running ↦
            let exact : seconds ≡ min now s.end_time - s.start_time =
              ground (arith, late, running) in
            let value = safe_claimable-eq-min s.flow_rate seconds s.deposit fits in
            rw (late, running, value, exact)
      ]
    ]

-- The milestones of a list stand in the order of time, and never vest less than one before.
abbrev pub Follows : Milestone → Milestone → Type 0
Follows a b = (a.time ≤ b.time) × (a.vested ≤ b.vested)

abbrev pub IsAscending : List Milestone → Type 0
IsAscending [] = Unit
IsAscending (m ∷ ms) = All (Follows m) ms × IsAscending ms

insert_by_time_first :
    (m : Milestone) (ms : List Milestone) → All (Follows m) ms → insert_by_time m ms ≡ m ∷ ms
unfolding insert_by_time
insert_by_time_first m [] h = refl
insert_by_time_first m (n ∷ ns) h = ground (arith, h.0)

sort_by_time_ascending : (ms : List Milestone) → IsAscending ms → sort_by_time ms ≡ ms
unfolding sort_by_time
sort_by_time_ascending [] h = refl
sort_by_time_ascending (m ∷ ms) h =
    rw (sort_by_time_ascending ms h.1, insert_by_time_first m ms h.0)

-- The milestone after `seconds`.
abbrev at : Stream → ℕ → Milestone
at s seconds = record {
  time = s.start_time + seconds;
  vested = min (s.flow_rate * seconds) s.deposit;
}

at-Follows : (s : Stream) (a b : ℕ) → a ≤ b → Follows (at s a) (at s b)
at-Follows s a b h = omega (arith, mul_span_mono s.flow_rate a b h)

claim_lem :
    (s : Stream) (seconds : ℕ)
    → s.deposit ≤ i128_max
    → claim s seconds ≡ ok (min (s.flow_rate * seconds) s.deposit)
claim_lem s seconds fits = safe_claimable-eq-min s.flow_rate seconds s.deposit fits

abbrev seconds_at : Stream → ℕ → ℕ
seconds_at s percent = (s.end_time - s.start_time) * percent / 100

-- The loop's list, without the throws.
abbrev marks : Stream → ℕ → List ℕ → List Milestone
marks s cliff [] = []
marks s cliff (p ∷ ps) =
    let later = marks s cliff ps in
    if ltb (s.start_time + cliff) (s.start_time + seconds_at s p)
    then at s (seconds_at s p) ∷ later
    else later

percent_milestones-marks :
    (s : Stream) (cliff : ℕ) (ps : List ℕ)
    → s.deposit ≤ i128_max
    → percent_milestones s cliff ps ≡ ok (marks s cliff ps)
unfolding percent_milestones
percent_milestones-marks s cliff [] fits = refl
percent_milestones-marks s cliff (p ∷ ps) fits =
    elim (Bool-cases (ltb (s.start_time + cliff) (s.start_time + seconds_at s p))) [
      | inl later ↦
          rw (later, claim_lem s (seconds_at s p) fits, percent_milestones-marks s cliff ps fits)
      | inr not_later ↦ rw (not_later, percent_milestones-marks s cliff ps fits)
    ]

seconds_at_mono : (s : Stream) (p q : ℕ) → p ≤ q → seconds_at s p ≤ seconds_at s q
seconds_at_mono s p q h = omega (arith, mul_span_mono (s.end_time - s.start_time) p q h)

abbrev IsSorted : List ℕ → Type 0
IsSorted [] = Unit
IsSorted (p ∷ ps) = All (λ q. p ≤ q) ps × IsSorted ps

cliff-Follows :
    (s : Stream) (cliff : ℕ) (ps : List ℕ) → All (Follows (at s cliff)) (marks s cliff ps)
cliff-Follows s cliff [] = tt
cliff-Follows s cliff (p ∷ ps) =
    elim (Bool-cases (ltb (s.start_time + cliff) (s.start_time + seconds_at s p))) [
      | inl later ↦
          rw later
            (at-Follows s cliff (seconds_at s p) (ground (arith, later)), cliff-Follows s cliff ps)
      | inr not_later ↦ rw not_later (cliff-Follows s cliff ps)
    ]

mark-Follows :
    (s : Stream) (cliff p : ℕ) (ps : List ℕ)
    → All (λ q. p ≤ q) ps
    → All (Follows (at s (seconds_at s p))) (marks s cliff ps)
mark-Follows s cliff p [] h = tt
mark-Follows s cliff p (q ∷ qs) h =
    let rest = mark-Follows s cliff p qs h.1 in
    elim (Bool-cases (ltb (s.start_time + cliff) (s.start_time + seconds_at s q))) [
      | inl later ↦
          rw later
            (at-Follows s (seconds_at s p) (seconds_at s q) (seconds_at_mono s p q h.0), rest)
      | inr not_later ↦ rw not_later rest
    ]

marks-IsAscending :
    (s : Stream) (cliff : ℕ) (ps : List ℕ) → IsSorted ps → IsAscending (marks s cliff ps)
marks-IsAscending s cliff [] h = tt
marks-IsAscending s cliff (p ∷ ps) h =
    let rest = marks-IsAscending s cliff ps h.1 in
    elim (Bool-cases (ltb (s.start_time + cliff) (s.start_time + seconds_at s p))) [
      | inl later ↦ rw later (mark-Follows s cliff p ps h.0, rest)
      | inr not_later ↦ rw not_later rest
    ]

abbrev percents : List ℕ
percents = 25 ∷ 50 ∷ 75 ∷ 100 ∷ []

-- The milestones of the whole schedule.
abbrev pub milestones_of : Stream → ℕ → List Milestone
milestones_of s cliff =
    let rest = marks s cliff percents in
    if ltb cliff (s.end_time - s.start_time) then at s cliff ∷ rest else rest

milestones_of-IsAscending : (s : Stream) (cliff : ℕ) → IsAscending (milestones_of s cliff)
milestones_of-IsAscending s cliff =
    let rest = marks-IsAscending s cliff percents (omega arith) in
    elim (Bool-cases (ltb cliff (s.end_time - s.start_time))) [
      | inl short ↦ rw short (cliff-Follows s cliff percents, rest)
      | inr not_short ↦ rw not_short rest
    ]

-- What a milestone says has vested is the plain accrual up to its time.
abbrev pub IsExact : Stream → Milestone → Type 0
IsExact s m = m.vested ≡ min (s.flow_rate * (m.time - s.start_time)) s.deposit

at-IsExact : (s : Stream) (seconds : ℕ) → IsExact s (at s seconds)
at-IsExact s seconds =
    let since : s.start_time + seconds - s.start_time ≡ seconds = omega arith in rw since

marks-IsExact : (s : Stream) (cliff : ℕ) (ps : List ℕ) → All (IsExact s) (marks s cliff ps)
marks-IsExact s cliff [] = tt
marks-IsExact s cliff (p ∷ ps) =
    let rest = marks-IsExact s cliff ps in
    elim (Bool-cases (ltb (s.start_time + cliff) (s.start_time + seconds_at s p))) [
      | inl later ↦ rw later (at-IsExact s (seconds_at s p), rest)
      | inr not_later ↦ rw not_later rest
    ]

milestones_of-IsExact : (s : Stream) (cliff : ℕ) → All (IsExact s) (milestones_of s cliff)
milestones_of-IsExact s cliff =
    let rest = marks-IsExact s cliff percents in
    elim (Bool-cases (ltb cliff (s.end_time - s.start_time))) [
      | inl short ↦ rw short (at-IsExact s cliff, rest)
      | inr not_short ↦ rw not_short rest
    ]

-- What the schedule of a stream promises.
pub record Vests (s : Stream) (cliff now : ℕ) (v : VestingSchedule) : Type 0 where
  pub claimable :
      v.effective_claimable ≡ (if ltb now (s.start_time + cliff) then 0 else streamed s now)
  pub total : v.total_amount ≡ streamed s s.end_time
  pub ascending : IsAscending v.milestones
  pub exact : All (IsExact s) v.milestones

-- For a deposit that fits an i128 and an end that is not before the start, the call does not throw.
-- Nothing is claimable before the end of the cliff, and after it all that has streamed since the
-- start, as if there had been no cliff. The total is what has streamed by the end. The milestones
-- are in the order of time, none vests less than one before it, and each vests the plain accrual
-- up to its time.
pub calculate_vesting_schedule-Vests :
    (s : Stream) (cliff now : ℕ)
    → s.deposit ≤ i128_max
    → s.start_time ≤ s.end_time
    → (v : VestingSchedule) × (calculate_vesting_schedule s cliff now ≡ ok v) × Vests s cliff now v
unfolding calculate_vesting_schedule cliff_milestone
calculate_vesting_schedule-Vests s cliff now fits ordered =
    let total = claim_lem s (s.end_time - s.start_time) fits in
    let value = effective_lem s cliff now fits ordered in
    let sorted =
      sort_by_time_ascending (milestones_of s cliff) (milestones_of-IsAscending s cliff) in
    let rest = percent_milestones-marks s cliff percents fits in
    (
      record {
        effective_claimable = if ltb now (s.start_time + cliff) then 0 else streamed s now;
        total_amount = streamed s s.end_time;
        cliff_end_time = s.start_time + cliff;
        in_cliff = ltb now (s.start_time + cliff);
        milestones = milestones_of s cliff;
      },
      elim (Bool-cases (ltb cliff (s.end_time - s.start_time))) [
        | inl short ↦ ground (arith, total, value, short, claim_lem s cliff fits, rest, sorted)
        | inr not_short ↦ ground (arith, total, value, not_short, rest, sorted)
      ],
      record {
        claimable = refl;
        total = omega arith;
        ascending = milestones_of-IsAscending s cliff;
        exact = milestones_of-IsExact s cliff;
      },
    )
