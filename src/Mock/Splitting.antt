-- ===== src/Mock/Splitting.antt =====
-- `splitStream`: what the two parts hold, and that they are backed.
use sorostream_sdk.Base.{
  ℕ, suc, ◌+◌, ◌-◌, ◌*◌, ◌/◌, ◌≤◌, ◌<◌, ◌≡◌, refl, ap, String, some, max, string_eq, arith,
}
use native.Mathlib.Nat.{div-mul-le_self, lt-div-mul-add, le_trans}
use sorostream_sdk.Base.Dict
use sorostream_sdk.Base.Decimal.{to_string}
use sorostream_sdk.Base.Int.{pos}
use sorostream_sdk.Base.Result.{ok}
use sorostream_sdk.Stream.{Stream, active, cancelled, safe_claimable}
use sorostream_sdk.Stream.Claims.{mul_span_mono}
use sorostream_sdk.Mock.State.{Client}
use sorostream_sdk.Mock.Lifecycle.{SplitStreamParams, split_stream, part, remaining_duration}
use sorostream_sdk.Mock.Backing.{IsBacked}

le_of_mul-le : (a b d : ℕ) → 0 < d → a * d ≤ b * d → a ≤ b
le_of_mul-le a b d h k = grind arith

lt_of_mul-lt : (a b d : ℕ) → a * d < b * d → a < b
lt_of_mul-lt a b d k = grind arith

-- Two complementary shares of a balance, each rounded down, lose at most one unit together.
shares_bounds :
    (b n d : ℕ)
    → 0 < n
    → n < d
    → (b * n / d + b * (d - n) / d ≤ b) × (b ≤ b * n / d + b * (d - n) / d + 1)
shares_bounds b n d h k =
    let whole : n + (d - n) ≡ d = omega arith in
    let total : b * n + b * (d - n) ≡ b * d = omega (arith, ap (λ (t : ℕ). b * t) whole) in
    (
      le_of_mul-le (b * n / d + b * (d - n) / d) b d (omega arith)
          (omega (arith, total, div-mul-le_self (b * n) d, div-mul-le_self (b * (d - n)) d)),
      omega (
        arith,
        lt_of_mul-lt b (b * n / d + b * (d - n) / d + 2) d (
            omega (
              arith,
              total,
              lt-div-mul-add {a = b * n} {b = d} (omega arith),
              lt-div-mul-add {a = b * (d - n)} {b = d} (omega arith),
            )),
      ),
    )

rate_funds : (v r : ℕ) → v / max 1 r * r ≤ v
rate_funds v r =
    let more : v / max 1 r * r ≤ v / max 1 r * max 1 r =
      mul_span_mono (v / max 1 r) r (max 1 r) (omega arith) in
    le_trans more (div-mul-le_self v (max 1 r))

part-IsBacked :
    (s : Stream) (now : ℕ) (id recipient : String) (value : ℕ)
    → s.last_withdraw_time ≤ now
    → now ≤ s.end_time
    → IsBacked now 0 (part s now id recipient value)
unfolding part
part-IsBacked s now id recipient value h k = record {
  started = omega arith;
  bounded = omega arith;
  current = omega arith;
  funded =
      let rest : now + s.end_time - max now s.last_withdraw_time - now ≡ remaining_duration s now =
        omega arith in
      rw rest (rate_funds value (remaining_duration s now));
  covered = omega arith;
}

split_stream-streams :
    (now : ℕ) (p : SplitStreamParams) (c : Client) (s : Stream) (balance n d : ℕ)
    → Dict.get p.stream_id c.streams ≡ some s
    → s.status ≡ active
    → p.ratio_numerator ≡ pos (suc n)
    → p.ratio_denominator ≡ pos (suc d)
    → n < d
    → safe_claimable s.flow_rate (remaining_duration s now) (some s.deposit) ≡ ok balance
    → (split_stream now p c).0.streams
      ≡ Dict.set
          (to_string (c.next_id + 1))
          (part s now (to_string (c.next_id + 1)) p.recipient_b (balance * (suc d - suc n) / suc d))
          (Dict.set
            (to_string c.next_id)
            (part s now (to_string c.next_id) p.recipient_a (balance * suc n / suc d))
            (Dict.set p.stream_id (record s { status = cancelled }) c.streams))
unfolding split_stream
split_stream-streams now p c s balance n d found act num den lt claimed = ground arith

-- What a client that splits `s` is left with: the original cancelled, and two new streams.
pub record IsDivided (now : ℕ) (p : SplitStreamParams) (c : Client) (s : Stream) (balance : ℕ)
    : Type 0 where
  pub part_a : Stream
  pub part_b : Stream
  pub written :
      (split_stream now p c).0.streams
      ≡ Dict.set (to_string (c.next_id + 1)) part_b (
          Dict.set
            (to_string c.next_id)
            part_a
            (Dict.set p.stream_id (record s { status = cancelled }) c.streams))
  pub recipients : (part_a.recipient ≡ p.recipient_a) × (part_b.recipient ≡ p.recipient_b)
  pub no_more : part_a.deposit + part_b.deposit ≤ balance
  pub no_less : balance ≤ part_a.deposit + part_b.deposit + 1
  pub ends : (part_a.end_time ≡ s.end_time) × (part_b.end_time ≡ s.end_time)
  pub backed_a : IsBacked now 0 part_a
  pub backed_b : IsBacked now 0 part_b

-- `splitStream` of an active stream that has not ended and was not withdrawn from after `now`, whose
-- remaining balance does not overflow, at a positive ratio below one: the original is cancelled, and
-- two streams of the same end are added, backed by deposits that share the remaining balance but for
-- at most one unit.
pub split_stream-IsDivided :
    (now : ℕ) (p : SplitStreamParams) (c : Client) (s : Stream) (balance n d : ℕ)
    → Dict.get p.stream_id c.streams ≡ some s
    → s.status ≡ active
    → s.last_withdraw_time ≤ now
    → now ≤ s.end_time
    → p.ratio_numerator ≡ pos (suc n)
    → p.ratio_denominator ≡ pos (suc d)
    → n < d
    → safe_claimable s.flow_rate (remaining_duration s now) (some s.deposit) ≡ ok balance
    → IsDivided now p c s balance
unfolding part
split_stream-IsDivided now p c s balance n d found act past early num den lt claimed = record {
  part_a = part s now (to_string c.next_id) p.recipient_a (balance * suc n / suc d);
  part_b = part s now (to_string (c.next_id + 1)) p.recipient_b (balance * (suc d - suc n) / suc d);
  written = split_stream-streams now p c s balance n d found act num den lt claimed;
  recipients = (refl, refl);
  no_more = (shares_bounds balance (suc n) (suc d) (omega arith) (omega arith)).0;
  no_less = (shares_bounds balance (suc n) (suc d) (omega arith) (omega arith)).1;
  ends = (omega arith, omega arith);
  backed_a = part-IsBacked s now _ _ _ past early;
  backed_b = part-IsBacked s now _ _ _ past early;
}
