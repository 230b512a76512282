-- ===== src/Portfolio/Funding.antt =====
-- What `isStreamUnderfunded`, `sortStreams` and `detectStreamDrift` promise.
use sorostream_sdk.Base.{
  ℕ, ◌+◌, ◌-◌, ◌*◌, ◌≤◌, ◌≡◌, ◌↔◌, refl, ap, subst, inl, inr, min, Bool, false, not, ◌||◌, List, [],
  nat_eq, string_eq, ◌==◌, ltb, if_elim, filter, Bool-cases, arith,
}
use sorostream_sdk.Base.Sort.{IsSorted, sort_on, sort_on-IsSorted, filter-sort_on}
use sorostream_sdk.Base.Result.{ok}
use sorostream_sdk.Stream.{Stream}
use sorostream_sdk.Stream.Claims.{safe_claimable-eq-min}
use sorostream_sdk.Portfolio.{is_active, is_stream_underfunded}
use sorostream_sdk.Portfolio.Select.{
  by_start_time, by_end_time, by_amount, sort_streams, status_name, detect_stream_drift,
}
use sorostream_sdk.StreamHealth.Pending.{IsCovered, balance_covers, safe_claimable-uncapped}

ltb_of_le : (a b : ℕ) → b ≤ a → ltb a b ≡ false
ltb_of_le a b h = ground arith

-- What is left after the last withdrawal covers the rest of the stream.
left_covers :
    (s : Stream)
    → IsCovered s
    → s.start_time ≤ s.last_withdraw_time
    → s.flow_rate * (s.end_time - s.last_withdraw_time)
      ≤ s.deposit - min (s.flow_rate * (s.last_withdraw_time - s.start_time)) s.deposit
left_covers s c late = elim (Bool-cases (ltb s.last_withdraw_time s.end_time)) [
  | inl runs ↦
      let e : min (s.last_withdraw_time - s.start_time) (s.end_time - s.start_time)
          ≡ s.last_withdraw_time - s.start_time =
        ground (arith, runs) in
      let b : s.flow_rate * (s.end_time - s.last_withdraw_time)
            + min (s.flow_rate * (s.last_withdraw_time - s.start_time)) s.deposit
          ≤ s.deposit =
        subst
          (λ n.
            s.flow_rate * (s.end_time - s.last_withdraw_time) + min (s.flow_rate * n) s.deposit
            ≤ s.deposit)
          e
          (balance_covers s.flow_rate s.start_time s.last_withdraw_time s.end_time s.deposit late
            c.spans c.covers) in
      omega (arith, b)
  | inr over ↦
      let e : s.end_time - s.last_withdraw_time ≡ 0 = ground (arith, over) in rw e (omega arith)
]

-- A stream that pays out at most its deposit and was last withdrawn from after its start is not
-- underfunded.
pub is_stream_underfunded-Covered :
    (s : Stream)
    → IsCovered s
    → s.start_time ≤ s.last_withdraw_time
    → is_stream_underfunded s ≡ ok false
unfolding is_stream_underfunded
is_stream_underfunded-Covered s c late =
    if_elim (λ r. r ≡ ok false) (not (is_active s.status) || s.flow_rate == 0) (λ idle. refl)
      (λ runs.
        rw
          (
            safe_claimable-eq-min s.flow_rate (s.last_withdraw_time - s.start_time) s.deposit
                c.fits,
            safe_claimable-uncapped s.flow_rate (s.end_time - s.last_withdraw_time)
                (omega (arith, left_covers s c late, c.fits)),
          )
          (ap ok (ltb_of_le _ _ (left_covers s c late))))

-- The streams stand in the asked direction of the key, and for each value of the key the streams that
-- have it are the same as before, in the same order.
pub record IsStableSort (key : Stream → ℕ) (descending : Bool) (streams sorted : List Stream)
    : Type 0 where
  pub in_order : IsSorted key descending sorted
  pub stable : (k : ℕ) → filter (λ s. key s == k) sorted ≡ filter (λ s. key s == k) streams

sort_on-IsStableSort :
    (key : Stream → ℕ) (descending : Bool) (streams : List Stream)
    → IsStableSort key descending streams (sort_on key descending streams)
sort_on-IsStableSort key descending streams = record {
  in_order = sort_on-IsSorted key descending streams;
  stable = λ k. filter-sort_on key descending k streams;
}

-- In either direction, the streams are sorted by their start, their end or their deposit, as asked, and
-- streams with the same value keep their order.
pub sort_streams-IsStable :
    (streams : List Stream) (descending : Bool)
    → IsStableSort
        (λ s. s.start_time)
        descending
        streams
        (sort_streams streams by_start_time descending)
      × IsStableSort
          (λ s. s.end_time)
          descending
          streams
          (sort_streams streams by_end_time descending)
      × IsStableSort (λ s. s.deposit) descending streams (sort_streams streams by_amount descending)
unfolding sort_streams
sort_streams-IsStable streams descending = (
  sort_on-IsStableSort (λ s. s.start_time) descending streams,
  sort_on-IsStableSort (λ s. s.end_time) descending streams,
  sort_on-IsStableSort (λ s. s.deposit) descending streams,
)

-- The fields that a fetch refreshes.
abbrev pub SameState : Stream → Stream → Type 0
SameState a b =
    (status_name a.status ≡ status_name b.status)
    × (a.deposit ≡ b.deposit)
    × (a.flow_rate ≡ b.flow_rate)
    × (a.end_time ≡ b.end_time)
    × (a.last_withdraw_time ≡ b.last_withdraw_time)
    × (a.auto_renew ≡ b.auto_renew)

-- There is no drift exactly if all the fields that a fetch refreshes are equal.
pub detect_stream_drift_iff :
    (cached on_chain : Stream)
    → (detect_stream_drift cached on_chain ≡ []) ↔ SameState cached on_chain
unfolding detect_stream_drift filter
detect_stream_drift_iff a b =
    ground (arith, string_eq.beq_iff (status_name a.status) (status_name b.status))
