-- ===== src/Amounts/RoundTrip.antt =====
-- What `formatUSDC` writes, `toStroops` reads back.
use sorostream_sdk.Base.{
  ℕ, zero, suc, ◌+◌, ◌-◌, ◌*◌, ◌/◌, ◌%◌, ◌^◌, ◌≤◌, ◌<◌, ◌≡◌, refl, ap, ◌∙◌, true, false, some, List,
  [], ◌∷◌, ◌++◌, leb, length, length-append, All, All-append, All-weaken, arith,
}
use sorostream_sdk.Base.Int.{pos}
use native.Mathlib.Nat.{one-le-pow, mod-lt, div-add-mod'}
use mathlib.Core.List.{append-nil}
use sorostream_sdk.Amounts.{
  Rounding, half_up, truncate, slice_from, zeros, or_zero, pad_start, units, round_if,
  unsigned_stroops, to_stroops, format_usdc,
}
use sorostream_sdk.Amounts.Literals.{big_int, digits_from, decimal_digits, to_text}
use sorostream_sdk.Amounts.Digits.{
  IsDigit, IsPlain, IsDigit-IsPlain, value, value-append, zeros_value, zeros-IsDigit, length-zeros,
  digits_from-IsDigit, decimal_digits_value, length-digits_from, trim-IsPlain, has_exponent-IsPlain,
  starts_with-IsPlain, without-IsPlain, before_code-digits, after_code-digits, before_code-whole,
  big_int-digits,
}

-- A text of digits, a point and digits is read as its two parts.
pub to_stroops-parts :
    (xs ys : List ℕ) (decimals : ℕ) (rounding : Rounding)
    → All IsDigit xs
    → All IsDigit ys
    → to_stroops (xs ++ 46 ∷ ys) decimals rounding ≡ unsigned_stroops xs ys decimals rounding
unfolding to_stroops
to_stroops-parts xs ys decimals rounding h k =
    let plain : All IsPlain (xs ++ 46 ∷ ys) =
      All-append IsPlain xs (46 ∷ ys) (All-weaken IsDigit IsPlain IsDigit-IsPlain xs h)
        ((omega arith, omega arith), All-weaken IsDigit IsPlain IsDigit-IsPlain ys k) in
    rw
      (
        trim-IsPlain (xs ++ 46 ∷ ys) plain,
        has_exponent-IsPlain (xs ++ 46 ∷ ys) plain,
        starts_with-IsPlain (xs ++ 46 ∷ ys) plain,
        without-IsPlain (xs ++ 46 ∷ ys) plain,
        before_code-digits xs ys h,
        after_code-digits xs ys h,
        before_code-whole ys k,
      )
      refl

-- `BigInt(text || '0')` of a text of digits.
or_zero-value : (cs : List ℕ) → All IsDigit cs → big_int (or_zero cs) ≡ some (pos (value 0 cs))
or_zero-value [] h = big_int-digits 48 [] ((omega arith, omega arith), tt)
or_zero-value (c ∷ cs) h = big_int-digits c cs h

pub units-value :
    (whole fraction : List ℕ) (decimals : ℕ)
    → All IsDigit whole
    → All IsDigit fraction
    → units whole fraction decimals ≡ some (pos (value 0 whole * 10 ^ decimals + value 0 fraction))
unfolding units
units-value whole fraction decimals h k = rw (or_zero-value whole h, or_zero-value fraction k) refl

-- As many digits behind the point as the token has decimals are all kept.
exact_fraction :
    (whole fraction : List ℕ) (decimals : ℕ) (rounding : Rounding)
    → length fraction ≡ decimals
    → unsigned_stroops whole fraction decimals rounding ≡ units whole fraction decimals
unfolding unsigned_stroops zeros
exact_fraction whole fraction decimals rounding h =
    let fits : leb (length fraction) decimals ≡ true = ground (arith, h) in
    let none_left : decimals - length fraction ≡ 0 = omega (arith, h) in
    rw (fits, none_left, append-nil fraction) refl

pad_start-value : (d : ℕ) (cs : List ℕ) → value 0 (pad_start d cs) ≡ value 0 cs
pad_start-value d cs =
    value-append 0 (zeros (d - length cs)) cs ∙ ap (λ v. value v cs) (zeros_value (d - length cs))

length-pad_start : (d : ℕ) (cs : List ℕ) → length cs ≤ d → length (pad_start d cs) ≡ d
length-pad_start d cs h =
    omega (arith, length-append (zeros (d - length cs)) cs, length-zeros (d - length cs), h)

decimal_digits-IsDigit : (n : ℕ) → All IsDigit (decimal_digits n)
unfolding decimal_digits
decimal_digits-IsDigit n = digits_from-IsDigit (suc n) n

pad_start-IsDigit : (d n : ℕ) → All IsDigit (pad_start d (decimal_digits n))
pad_start-IsDigit d n =
    All-append IsDigit (zeros (d - length (decimal_digits n))) (decimal_digits n)
      (zeros-IsDigit (d - length (decimal_digits n))) (decimal_digits-IsDigit n)

-- The digits of a number, with a fraction of `d` digits.
joined-value :
    (w r d : ℕ)
    → value 0 (decimal_digits w) * 10 ^ d + value 0 (pad_start d (decimal_digits r))
      ≡ w * 10 ^ d + r
joined-value w r d =
    rw (pad_start-value d (decimal_digits r), decimal_digits_value w, decimal_digits_value r) refl

short : (e r : ℕ) → r < 10 ^ suc e → length (decimal_digits r) ≤ suc e
unfolding decimal_digits
short e r h = length-digits_from e (suc r) r h

-- Without decimals a lone zero stands behind the point, and it is cut off.
whole_read :
    (whole : List ℕ) (rounding : Rounding)
    → All IsDigit whole
    → unsigned_stroops whole (48 ∷ []) 0 rounding ≡ some (pos (value 0 whole * 1 + 0))
unfolding unsigned_stroops slice_from
whole_read whole truncate h = ap (round_if false) (units-value whole [] 0 h tt)
whole_read whole half_up h = ap (round_if false) (units-value whole [] 0 h tt)

zero_padded : pad_start 0 (decimal_digits 0) ≡ 48 ∷ []
unfolding decimal_digits digits_from zeros
zero_padded = refl

fraction_read :
    (w r d : ℕ) (rounding : Rounding)
    → r < 10 ^ d
    → unsigned_stroops (decimal_digits w) (pad_start d (decimal_digits r)) d rounding
      ≡ some (pos (w * 10 ^ d + r))
fraction_read w zero zero rounding h =
    ap (λ cs. unsigned_stroops (decimal_digits w) cs 0 rounding) zero_padded
    ∙ whole_read (decimal_digits w) rounding (decimal_digits-IsDigit w)
    ∙ ap (λ v. some (pos (v * 1 + 0))) (decimal_digits_value w)
fraction_read w (suc r) zero rounding h = absurd (omega (arith, h))
fraction_read w r (suc e) rounding h =
    let fits : length (decimal_digits r) ≤ suc e = short e r h in
    exact_fraction (decimal_digits w) (pad_start (suc e) (decimal_digits r)) (suc e) rounding
      (length-pad_start (suc e) (decimal_digits r) fits)
    ∙ units-value (decimal_digits w) (pad_start (suc e) (decimal_digits r)) (suc e)
        (decimal_digits-IsDigit w) (pad_start-IsDigit (suc e) r)
    ∙ ap (λ v. some (pos v)) (joined-value w r (suc e))

-- An amount that is not negative is read back from its text, whatever the number of decimals and
-- the rounding.
pub to_stroops-format_usdc :
    (n decimals : ℕ) (rounding : Rounding)
    → to_stroops (format_usdc (pos n) decimals) decimals rounding ≡ some (pos n)
unfolding format_usdc to_text
to_stroops-format_usdc n decimals rounding =
    let f = 10 ^ decimals in
    to_stroops-parts (decimal_digits (n / f)) (pad_start decimals (decimal_digits (n % f))) decimals
      rounding (decimal_digits-IsDigit (n / f)) (pad_start-IsDigit decimals (n % f))
    ∙ fraction_read (n / f) (n % f) decimals rounding
        (mod-lt n (one-le-pow decimals 10 (omega arith)))
    ∙ ap (λ v. some (pos v)) (div-add-mod' n f)
