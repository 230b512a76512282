-- ===== src/Amounts/Tests.antt =====
-- Concrete amounts.
use sorostream_sdk.Base.{◌≡◌, refl, some, contains, ℕ, [], ◌∷◌, arith}
use sorostream_sdk.Amounts.RoundTrip.{to_stroops-format_usdc}
use sorostream_sdk.Amounts.Nearest.{IsNearest, to_stroops-IsNearest}
use sorostream_sdk.Base.Int.{pos, negsuc}
use sorostream_sdk.StreamId.{codes}
use sorostream_sdk.Amounts.{
  to_stroops, format_usdc, half_up, truncate, unsigned_stroops, units, has_exponent, before_code,
  after_code, slice_from, zeros, expand_scientific, place_point, take_digits, drop_digits,
}
use sorostream_sdk.Amounts.Literals.{
  big_int, read_signed, read_unsigned, read_number, read_digits, digit_value, trim, trim_start,
  trim_end, is_white, to_text, decimal_digits, digits_from,
}

plain : to_stroops (codes " 100.5 ") 7 half_up ≡ some (pos 1005000000)
unfolding to_stroops unsigned_stroops units big_int read_signed read_unsigned read_number
    read_digits digit_value trim trim_start trim_end is_white has_exponent before_code after_code
    slice_from zeros expand_scientific place_point take_digits drop_digits contains
plain = refl

scientific : to_stroops (codes "-1.25e-6") 7 half_up ≡ some (negsuc 12)
unfolding to_stroops unsigned_stroops units big_int read_signed read_unsigned read_number
    read_digits digit_value trim trim_start trim_end is_white has_exponent before_code after_code
    slice_from zeros expand_scientific place_point take_digits drop_digits contains
scientific = refl

rounded : to_stroops (codes "0.15") 1 half_up ≡ some (pos 2)
unfolding to_stroops unsigned_stroops units big_int read_signed read_unsigned read_number
    read_digits digit_value trim trim_start trim_end is_white has_exponent before_code after_code
    slice_from zeros expand_scientific place_point take_digits drop_digits contains
rounded = refl

cut : to_stroops (codes "0.15") 1 truncate ≡ some (pos 1)
unfolding to_stroops unsigned_stroops units big_int read_signed read_unsigned read_number
    read_digits digit_value trim trim_start trim_end is_white has_exponent before_code after_code
    slice_from zeros expand_scientific place_point take_digits drop_digits contains
cut = refl

-- The remainder of a negative bigint is negative.
sign_inside : format_usdc (negsuc 14999999) 7 ≡ codes "-1.-5000000"
unfolding format_usdc to_text decimal_digits digits_from zeros
sign_inside = refl

to_stroops-format_usdc_example : to_stroops (format_usdc (pos 1005) 2) 2 half_up ≡ some (pos 1005)
to_stroops-format_usdc_example = to_stroops-format_usdc 1005 2 half_up

-- 1.235 with two decimals.
to_stroops-IsNearest_example :
    (v : ℕ) × (to_stroops (49 ∷ 46 ∷ 50 ∷ 51 ∷ 53 ∷ []) 2 half_up ≡ some (pos v))
    × IsNearest 1235 10 v
to_stroops-IsNearest_example =
    to_stroops-IsNearest (49 ∷ []) (50 ∷ 51 ∷ []) 53 [] ((omega arith, omega arith), tt)
      ((omega arith, omega arith), ((omega arith, omega arith), tt)) (omega arith, omega arith) tt
