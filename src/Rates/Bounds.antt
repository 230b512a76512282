-- ===== src/Rates/Bounds.antt =====
-- What the conversions of flow rates lose to rounding.
use sorostream_sdk.Base.{
  ℕ, zero, suc, ◌+◌, ◌*◌, ◌/◌, ◌≤◌, ◌<◌, ◌≡◌, inl, inr, Bool-cases, refl, nat_eq, ◌==◌, arith,
}
use native.Mathlib.Nat.{div-mul-le_self, lt-div-mul-add, mul-div_cancel}
use sorostream_sdk.Base.Int.{ℤ, pos, negsuc}
use sorostream_sdk.Base.Result.{Result, ok}
use sorostream_sdk.Rates.{
  RateUnit, unit_seconds, RateError, amount_not_positive, calculate_flow_rate, to_rate_per_second,
  from_rate_per_second, rate_calculator, check_positive, convert,
}

mul_le_right : (t : ℕ) {a b : ℕ} → a ≤ b → a * t ≤ b * t
mul_le_right t h = grind arith

-- A flow rate is returned exactly for a positive amount and duration; over the duration it streams
-- at most the amount, and leaves less than a unit for each second.
pub calculate_flow_rate_bounds :
    (total duration : ℤ) (rate : ℕ)
    → calculate_flow_rate total duration ≡ ok rate
    → (a : ℕ) × (d : ℕ) × (total ≡ pos (suc a))
      × (duration ≡ pos (suc d))
      × (rate * suc d ≤ suc a)
      × (suc a < rate * suc d + suc d)
unfolding calculate_flow_rate
calculate_flow_rate_bounds (pos (suc a)) (pos (suc d)) rate h =
    let e : suc a / suc d ≡ rate = ground arith in
    (
      a,
      d,
      refl,
      refl,
      rw (← e) (div-mul-le_self (suc a) (suc d)),
      rw (← e) (lt-div-mul-add {a = suc a} {b = suc d} (omega arith)),
    )
calculate_flow_rate_bounds (pos (suc a)) (pos zero) rate h = ground arith
calculate_flow_rate_bounds (pos (suc a)) (negsuc d) rate h = ground arith
calculate_flow_rate_bounds (pos zero) duration rate h = ground arith
calculate_flow_rate_bounds (negsuc a) duration rate h = ground arith

unit_seconds_pos : (unit : RateUnit) → 0 < unit_seconds unit
unit_seconds_pos unit = ground arith

check_positive_pos :
    (n : ℕ) (k : ℕ → Result RateError ℕ)
    → 0 < n
    → check_positive amount_not_positive (pos n) k ≡ k n
check_positive_pos zero k h = absurd (omega arith)
check_positive_pos (suc n) k h = refl

-- A positive rate per second survives the way to a unit and back.
pub to_rate-from_rate :
    (rate : ℕ) (unit : RateUnit) (a : ℕ)
    → from_rate_per_second (pos (suc rate)) unit ≡ ok a
    → to_rate_per_second (pos a) unit ≡ ok (suc rate)
unfolding from_rate_per_second to_rate_per_second
to_rate-from_rate rate unit a h =
    let e : suc rate * unit_seconds unit ≡ a = ground arith in
    rw (
      ← e,
      check_positive_pos (suc rate * unit_seconds unit) (λ n. ok (n / unit_seconds unit))
          (omega (
            arith,
            unit_seconds_pos unit,
            mul_le_right (unit_seconds unit) {a = 1} {b = suc rate} (omega arith),
          )),
      mul-div_cancel (suc rate) (unit_seconds_pos unit),
    )

convert-le : (a f t : ℕ) → convert a f t * f ≤ a * t
convert-le a f t = elim (Bool-cases (a / f == 0)) [
  | inl small ↦ rw small (div-mul-le_self (a * t) f)
  | inr large ↦
      let whole : (a / f * f) * t ≤ a * t = mul_le_right t (div-mul-le_self a f) in
      rw large (omega (arith, whole))
]

-- `rateCalculator` never exceeds the exact conversion.
pub rate_calculator-le :
    (amount : ℕ) (from to : RateUnit)
    → rate_calculator (pos amount) from to * unit_seconds from ≤ amount * unit_seconds to
unfolding rate_calculator
rate_calculator-le zero from to = ground arith
rate_calculator-le (suc n) from to = convert-le (suc n) (unit_seconds from) (unit_seconds to)
