-- ===== src/Amounts/Digits.antt =====
-- Decimal digits are read back, and texts of digits and points are read as they stand.
use sorostream_sdk.Base.{
  ℕ, zero, suc, ◌+◌, ◌-◌, ◌*◌, ◌/◌, ◌%◌, ◌^◌, ◌≤◌, ◌<◌, ◌≡◌, refl, ap, ◌∙◌, true, false, some, List,
  [], ◌∷◌, ◌++◌, nat_eq, ◌==◌, ltb, contains, if_elim, length, length-append, All, All-append,
  All-weaken, arith,
}
use sorostream_sdk.Base.Int.{pos}
use sorostream_sdk.Amounts.{zeros, before_code, after_code, has_exponent, starts_with, without}
use sorostream_sdk.Amounts.Literals.{
  is_white, trim_start, white_before, trim_end, trim, digit_value, read_digits, read_number,
  read_unsigned, read_signed, big_int, digits_from, decimal_digits,
}
use native.Mathlib.Nat.{pow-suc}

abbrev pub IsDigit : ℕ → Type 0
IsDigit c = (48 ≤ c) × (c ≤ 57)

-- A digit or the point.
abbrev pub IsPlain : ℕ → Type 0
IsPlain c = (46 ≤ c) × (c ≤ 57)

-- The number that digits stand for, behind those of `acc`.
abbrev pub value : ℕ → List ℕ → ℕ
value acc [] = acc
value acc (c ∷ cs) = value (acc * 10 + (c - 48)) cs

pub value-append : (acc : ℕ) (xs ys : List ℕ) → value acc (xs ++ ys) ≡ value (value acc xs) ys
value-append acc [] ys = refl
value-append acc (x ∷ xs) ys = value-append (acc * 10 + (x - 48)) xs ys

pub zeros_value : (k : ℕ) → value 0 (zeros k) ≡ 0
unfolding zeros
zeros_value zero = refl
zeros_value (suc k) = zeros_value k

pub zeros-IsDigit : (k : ℕ) → All IsDigit (zeros k)
unfolding zeros
zeros-IsDigit zero = tt
zeros-IsDigit (suc k) = ((omega arith, omega arith), zeros-IsDigit k)

pub length-zeros : (k : ℕ) → length (zeros k) ≡ k
unfolding zeros
length-zeros zero = refl
length-zeros (suc k) = ap suc (length-zeros k)

pub digits_from-IsDigit : (fuel n : ℕ) → All IsDigit (digits_from fuel n)
unfolding digits_from
digits_from-IsDigit zero n = tt
digits_from-IsDigit (suc fuel) n =
    if_elim (All IsDigit) (ltb n 10) (λ one. ((omega arith, ground (arith, one)), tt))
      (λ more.
        All-append IsDigit (digits_from fuel (n / 10)) _ (digits_from-IsDigit fuel (n / 10))
          ((omega arith, omega arith), tt))

digits_from_value : (fuel n : ℕ) → n < fuel → value 0 (digits_from fuel n) ≡ n
unfolding digits_from
digits_from_value zero n h = absurd (omega arith)
digits_from_value (suc fuel) n h =
    if_elim (λ l. value 0 l ≡ n) (ltb n 10) (λ one. omega arith)
      (λ more.
        let front = digits_from_value fuel (n / 10) (ground (arith, more, h)) in
        value-append 0 (digits_from fuel (n / 10)) _ ∙ omega (arith, front))

pub decimal_digits_value : (n : ℕ) → value 0 (decimal_digits n) ≡ n
unfolding decimal_digits
decimal_digits_value n = digits_from_value (suc n) n (omega arith)

pub length-digits_from : (d fuel n : ℕ) → n < 10 ^ suc d → length (digits_from fuel n) ≤ suc d
unfolding digits_from
length-digits_from d zero n h = omega arith
length-digits_from zero (suc fuel) n h =
    if_elim (λ l. length l ≤ 1) (ltb n 10) {x = (48 + n) ∷ []}
      {y = digits_from fuel (n / 10) ++ (48 + n % 10) ∷ []} (λ one. omega arith)
      (λ more. absurd (ground (arith, more, h)))
length-digits_from (suc d) (suc fuel) n h =
    if_elim (λ l. length l ≤ suc (suc d)) (ltb n 10) {x = (48 + n) ∷ []}
      {y = digits_from fuel (n / 10) ++ (48 + n % 10) ∷ []} (λ one. omega arith)
      (λ more.
        let fits : n / 10 < 10 ^ suc d = omega (arith, pow-suc 10 (suc d), h) in
        omega (
          arith,
          length-append (digits_from fuel (n / 10)) ((48 + n % 10) ∷ []),
          length-digits_from d fuel (n / 10) fits,
        ))

pub IsDigit-IsPlain : (c : ℕ) → IsDigit c → IsPlain c
IsDigit-IsPlain c h = omega arith

plain_white : (c : ℕ) → IsPlain c → is_white c ≡ false
unfolding is_white contains
plain_white c h = ground (arith, h)

start-IsPlain : (cs : List ℕ) → All IsPlain cs → trim_start cs ≡ cs
unfolding trim_start
start-IsPlain [] h = refl
start-IsPlain (c ∷ cs) (p, h) = rw (plain_white c p) refl

kept : (c : ℕ) (cs : List ℕ) → IsPlain c → white_before c cs ≡ c ∷ cs
kept c [] p = rw (plain_white c p) refl
kept c (d ∷ ds) p = refl

end-IsPlain : (cs : List ℕ) → All IsPlain cs → trim_end cs ≡ cs
unfolding trim_end
end-IsPlain [] h = refl
end-IsPlain (c ∷ cs) (p, h) = ap (white_before c) (end-IsPlain cs h) ∙ kept c cs p

pub trim-IsPlain : (cs : List ℕ) → All IsPlain cs → trim cs ≡ cs
unfolding trim
trim-IsPlain cs h = ap trim_end (start-IsPlain cs h) ∙ end-IsPlain cs h

pub has_exponent-IsPlain : (cs : List ℕ) → All IsPlain cs → has_exponent cs ≡ false
unfolding has_exponent
has_exponent-IsPlain [] h = refl
has_exponent-IsPlain (c ∷ cs) (p, h) = ground (arith, p, has_exponent-IsPlain cs h)

pub starts_with-IsPlain : (cs : List ℕ) → All IsPlain cs → starts_with 45 cs ≡ false
starts_with-IsPlain [] h = refl
starts_with-IsPlain (c ∷ cs) (p, h) = ground (arith, p)

pub without-IsPlain : (cs : List ℕ) → All IsPlain cs → without 45 cs ≡ cs
without-IsPlain [] h = refl
without-IsPlain (c ∷ cs) (p, h) = let other : (c == 45) ≡ false = ground (arith, p) in rw other refl

pub before_code-digits : (xs ys : List ℕ) → All IsDigit xs → before_code 46 (xs ++ 46 ∷ ys) ≡ xs
unfolding before_code
before_code-digits [] ys h = refl
before_code-digits (x ∷ xs) ys (p, h) =
    let other : (x == 46) ≡ false = ground (arith, p) in
    rw other (ap (x ∷◌) (before_code-digits xs ys h))

pub after_code-digits : (xs ys : List ℕ) → All IsDigit xs → after_code 46 (xs ++ 46 ∷ ys) ≡ ys
unfolding after_code
after_code-digits [] ys h = refl
after_code-digits (x ∷ xs) ys (p, h) =
    let other : (x == 46) ≡ false = ground (arith, p) in rw other (after_code-digits xs ys h)

pub before_code-whole : (xs : List ℕ) → All IsDigit xs → before_code 46 xs ≡ xs
unfolding before_code
before_code-whole [] h = refl
before_code-whole (x ∷ xs) (p, h) =
    let other : (x == 46) ≡ false = ground (arith, p) in
    rw other (ap (x ∷◌) (before_code-whole xs h))

digit_value-IsDigit : (c : ℕ) → IsDigit c → digit_value c ≡ some (c - 48)
unfolding digit_value
digit_value-IsDigit c h = ground (arith, h)

read_digits-value :
    (acc : ℕ) (cs : List ℕ) → All IsDigit cs → read_digits 10 acc cs ≡ some (value acc cs)
unfolding read_digits
read_digits-value acc [] h = refl
read_digits-value acc (c ∷ cs) (p, h) =
    let small : ltb (c - 48) 10 ≡ true = ground (arith, p) in
    rw (digit_value-IsDigit c p, read_digits, small) (read_digits-value (acc * 10 + (c - 48)) cs h)

read_unsigned-value :
    (c : ℕ) (cs : List ℕ) → All IsDigit (c ∷ cs) → read_unsigned (c ∷ cs) ≡ some (value 0 (c ∷ cs))
unfolding read_unsigned read_number
read_unsigned-value c [] h = read_digits-value 0 (c ∷ []) h
read_unsigned-value c (p ∷ cs) (h, (k, l)) =
    ground (arith, h, k, read_digits-value 0 (c ∷ p ∷ cs) (h, (k, l)))

-- A text of at least one digit is the number of its digits.
pub big_int-digits :
    (c : ℕ) (cs : List ℕ) → All IsDigit (c ∷ cs) → big_int (c ∷ cs) ≡ some (pos (value 0 (c ∷ cs)))
unfolding big_int read_signed
big_int-digits c cs h =
    let minus_free : (c == 45) ≡ false = ground (arith, h.1) in
    let plus_free : (c == 43) ≡ false = ground (arith, h.1) in
    rw
      (
        trim-IsPlain (c ∷ cs) (All-weaken IsDigit IsPlain IsDigit-IsPlain (c ∷ cs) h),
        minus_free,
        plus_free,
        read_unsigned-value c cs h,
      )
      refl
