-- ===== src/Rates/Tests.antt =====
-- Runs of the flow-rate helpers.
use sorostream_sdk.Base.{◌*◌, ◌≡◌, ◌≤◌, refl}
use sorostream_sdk.Base.Int.{pos}
use sorostream_sdk.Base.Result.{ok}
use sorostream_sdk.Rates.{
  to_rate_per_second, from_rate_per_second, rate_calculator, hour, minute, unit_seconds, day,
}
use sorostream_sdk.Rates.Bounds.{to_rate-from_rate, rate_calculator-le}

to_rate-from_rate_example : to_rate_per_second (pos 36000) hour ≡ ok 10
unfolding from_rate_per_second
to_rate-from_rate_example = to_rate-from_rate 9 hour 36000 refl

rate_calculator-le_example :
    rate_calculator (pos 100) minute day * unit_seconds minute ≤ 100 * unit_seconds day
rate_calculator-le_example = rate_calculator-le 100 minute day
