-- ===== src/Rates.antt =====
-- The flow-rate helpers of utils.ts. A `bigint` argument may be negative.
pub mod Bounds
mod Tests
use sorostream_sdk.Base.{
  ℕ, zero, suc, ◌+◌, ◌*◌, ◌/◌, Bool, true, false, nat_eq, ◌==◌, if◌then◌else◌,
}
use sorostream_sdk.Base.Int.{ℤ, pos, negsuc}
use sorostream_sdk.Base.Result.{Result, ok, err}

pub data RateUnit : Type 0 where
  second minute hour day week : RateUnit

pub data RateError : Type 0 where
  total_amount_not_positive duration_not_positive amount_not_positive rate_negative : RateError

abbrev pub unit_seconds : RateUnit → ℕ
unit_seconds second = 1
unit_seconds minute = 60
unit_seconds hour = 3600
unit_seconds day = 86400
unit_seconds week = 604800

abbrev pub seconds_per_month : ℕ
seconds_per_month = 2592000

abbrev pub check_positive : RateError → ℤ → (ℕ → Result RateError ℕ) → Result RateError ℕ
check_positive e (pos zero) k = err e
check_positive e (pos (suc n)) k = k (suc n)
check_positive e (negsuc n) k = err e

unfoldable pub calculate_flow_rate : ℤ → ℤ → Result RateError ℕ
calculate_flow_rate total duration =
    check_positive total_amount_not_positive total
      (λ amount. check_positive duration_not_positive duration (λ seconds. ok (amount / seconds)))

unfoldable pub to_rate_per_second : ℤ → RateUnit → Result RateError ℕ
to_rate_per_second amount unit =
    check_positive amount_not_positive amount (λ a. ok (a / unit_seconds unit))

unfoldable pub from_rate_per_second : ℤ → RateUnit → Result RateError ℕ
from_rate_per_second (pos rate) unit = ok (rate * unit_seconds unit)
from_rate_per_second (negsuc n) unit = err rate_negative

unfoldable pub to_rate_per_month : ℤ → ℕ
to_rate_per_month (pos rate) = rate * seconds_per_month
to_rate_per_month (negsuc n) = 0

abbrev convert : ℕ → ℕ → ℕ → ℕ
convert amount from_seconds to_seconds =
    let per_second = amount / from_seconds in
    if per_second == 0 then (amount * to_seconds) / from_seconds else per_second * to_seconds

unfoldable pub rate_calculator : ℤ → RateUnit → RateUnit → ℕ
rate_calculator (pos zero) from to = 0
rate_calculator (negsuc n) from to = 0
rate_calculator (pos (suc n)) from to = convert (suc n) (unit_seconds from) (unit_seconds to)
