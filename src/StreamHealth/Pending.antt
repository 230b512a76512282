-- ===== src/StreamHealth/Pending.antt =====
-- When a stream that pays out at most its deposit is called underfunded: never once it has started, but
-- possibly before.
use sorostream_sdk.Base.{
  ℕ, ◌+◌, ◌-◌, ◌*◌, ◌≤◌, ◌<◌, ◌≡◌, refl, ap, inl, inr, min, max, String, Bool, true, false, none,
  [], ◌∷◌, nat_eq, ltb, filter, ◌/◌, if◌then◌else◌, Bool-cases, ◌∙◌, arith,
}
use sorostream_sdk.Base.Result.{ok}
use sorostream_sdk.Stream.{Stream, i128_max, safe_claimable, active}
use sorostream_sdk.Stream.Claims.{safe_claimable-eq-min, mul_span}
use sorostream_sdk.StreamHealth.{
  Diagnostic, was_cancelled, no_withdrawal, underfunded, still_locked, StreamHealthResult, judge,
  health_in, health_of_running, get_stream_health,
}
use sorostream_sdk.Mock.Create.{CreateStreamParams, new_stream}
use sorostream_sdk.Portfolio.Balance.{Fits}

ltb_of_lt : (a b : ℕ) → a < b → ltb a b ≡ true
ltb_of_lt a b h = ground arith

ltb_of_ge : (a b : ℕ) → b ≤ a → ltb a b ≡ false
ltb_of_ge a b h = ground arith

abbrev pub is_underfunded : Diagnostic → Bool
is_underfunded was_cancelled = false
is_underfunded no_withdrawal = false
is_underfunded underfunded = true
is_underfunded still_locked = false

-- The stream pays out at most its deposit, as one that was just created does.
pub record IsCovered (s : Stream) : Type 0 where
  pub fits : Fits s
  pub spans : s.start_time ≤ s.end_time
  pub covers : s.flow_rate * (s.end_time - s.start_time) ≤ s.deposit

pub safe_claimable-uncapped :
    (flow elapsed : ℕ)
    → flow * elapsed ≤ i128_max
    → safe_claimable flow elapsed none ≡ ok (flow * elapsed)
unfolding safe_claimable
safe_claimable-uncapped flow elapsed h = ground arith

-- Once started, the balance that is left covers what is left to stream.
pub balance_covers :
    (flow start now end_time deposit : ℕ)
    → start ≤ now
    → start ≤ end_time
    → flow * (end_time - start) ≤ deposit
    → flow * (end_time - now) + min (flow * min (now - start) (end_time - start)) deposit ≤ deposit
balance_covers flow start now end_time deposit h k c = elim (Bool-cases (ltb now end_time)) [
  | inl runs ↦
      let e : min (now - start) (end_time - start) ≡ now - start = ground (arith, runs) in
      rw e (omega (arith, mul_span flow start now end_time h (ground (arith, runs))))
  | inr over ↦ let e : end_time - now ≡ 0 = ground (arith, over) in rw e (omega arith)
]

module _ (s : Stream) (now : ℕ) (running : s.status ≡ active) (c : IsCovered s) where
  -- The figures that a running stream is judged by.
  judged :
      s.flow_rate * (s.end_time - now) ≤ i128_max
      → get_stream_health s now
        ≡ ok (
            judge s now
              (min (s.flow_rate * min (now - s.start_time) (s.end_time - s.start_time)) s.deposit)
              (s.flow_rate * (s.end_time - now)))
  unfolding get_stream_health health_of_running
  judged fits =
      ap (λ status. health_in status s now) running
      ∙ rw
          (
            safe_claimable-eq-min s.flow_rate (min (now - s.start_time) (s.end_time - s.start_time))
                s.deposit c.fits,
            safe_claimable-uncapped s.flow_rate (s.end_time - now) fits,
            health_of_running,
          )
          refl

  -- From its start on an active stream that pays out at most its deposit, which an i128 holds, is not
  -- diagnosed as underfunded: its health is returned without that diagnostic, and the balance covers
  -- what is left to stream.
  pub get_stream_health-Covered :
      s.start_time ≤ now
      → (h : StreamHealthResult) × (get_stream_health s now ≡ ok h)
        × (filter is_underfunded h.diagnostics ≡ [])
        × (s.flow_rate * (s.end_time - now) ≤ h.remaining_balance)
  unfolding judge filter
  get_stream_health-Covered started =
      let b =
        balance_covers s.flow_rate s.start_time now s.end_time s.deposit started c.spans c.covers in
      let enough : ltb
            (s.deposit
              - min (s.flow_rate * min (now - s.start_time) (s.end_time - s.start_time)) s.deposit)
            (s.flow_rate * (s.end_time - now))
          ≡ false =
        ltb_of_ge _ _ (omega (arith, b)) in
      (_, judged (omega (arith, b, c.fits)), rw enough (ground arith), omega (arith, b))

  -- Before its start an active stream that pays out at most its deposit, which an i128 holds, and from
  -- which nothing was withdrawn, gets the score 70 and the one diagnostic that it is underfunded,
  -- although its deposit covers it, if the time to its end is longer than the deposit lasts. What
  -- would be streamed in that time fits an i128.
  pub get_stream_health-Pending :
      now < s.start_time
      → s.last_withdraw_time ≡ s.start_time
      → s.deposit < s.flow_rate * (s.end_time - now)
      → s.flow_rate * (s.end_time - now) ≤ i128_max
      → (h : StreamHealthResult) × (get_stream_health s now ≡ ok h)
        × (h.score ≡ 70)
        × (h.diagnostics ≡ underfunded ∷ [])
  unfolding judge
  get_stream_health-Pending early unpaid long fits =
      let streamed =
        min (s.flow_rate * min (now - s.start_time) (s.end_time - s.start_time)) s.deposit in
      let short : ltb (s.deposit - streamed) (s.flow_rate * (s.end_time - now)) ≡ true =
        ltb_of_lt (s.deposit - streamed) (s.flow_rate * (s.end_time - now)) (omega (arith, long)) in
      let fresh : ltb (max 60 ((s.end_time - s.start_time) / 10))
            (if ltb 0 s.last_withdraw_time then now - s.last_withdraw_time else 0)
          ≡ false =
        ground (arith, unpaid) in
      let begun : min (now - s.start_time) (s.end_time - s.start_time) ≡ 0 = omega arith in
      (
        _,
        judged fits,
        rw short (ground (arith, fresh, begun)),
        rw short (ground (arith, fresh, begun)),
      )

-- A stream that the mock client creates pays out at most its deposit.
pub new_stream-IsCovered :
    (now : ℕ) (id sender : String) (p : CreateStreamParams) (value duration : ℕ)
    → 0 < duration
    → value ≤ i128_max
    → IsCovered (new_stream now id sender p value duration)
unfolding new_stream
new_stream-IsCovered now id sender p value duration long fits = record {
  fits = fits;
  spans = omega arith;
  covers = grind arith;
}
