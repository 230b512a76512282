-- ===== src/Amounts/Literals.antt =====
-- `BigInt(text)` and `String(bigint)` of the language, on the codes of the characters.
use sorostream_sdk.Base.{
  ℕ, zero, suc, ◌+◌, ◌-◌, ◌*◌, ◌/◌, ◌%◌, Bool, ◌&&◌, ◌||◌, Option, none, some, List, [], ◌∷◌, ◌++◌,
  nat_eq, ◌==◌, ltb, leb, if◌then◌else◌, contains,
}
use sorostream_sdk.Base.Int.{ℤ, pos, negsuc, minus}

-- White space and line ends, which `trim` and `BigInt` slice_from.
unfoldable pub is_white : ℕ → Bool
unfolding contains
is_white c =
    leb 9 c && leb c 13
    || leb 8192 c && leb c 8202
    || contains (32 ∷ 160 ∷ 5760 ∷ 8232 ∷ 8233 ∷ 8239 ∷ 8287 ∷ 12288 ∷ 65279 ∷ []) c

unfoldable pub trim_start : List ℕ → List ℕ
trim_start [] = []
trim_start (c ∷ cs) = let rest = trim_start cs in if is_white c then rest else c ∷ cs

abbrev pub white_before : ℕ → List ℕ → List ℕ
white_before c [] = if is_white c then [] else c ∷ []
white_before c (d ∷ ds) = c ∷ d ∷ ds

unfoldable pub trim_end : List ℕ → List ℕ
trim_end [] = []
trim_end (c ∷ cs) = white_before c (trim_end cs)

unfoldable pub trim : List ℕ → List ℕ
unfolding trim_start trim_end
trim cs = trim_end (trim_start cs)

-- The value of a digit or letter in bases up to 16.
unfoldable pub digit_value : ℕ → Option ℕ
digit_value c =
    if leb 48 c && leb c 57
    then some (c - 48)
    else if leb 97 c && leb c 102
    then some (c - 87)
    else if leb 65 c && leb c 70
    then some (c - 55)
    else none

-- The number with digits `cs` behind those of `acc`, if all are digits of the base.
unfoldable pub read_digits : ℕ → ℕ → List ℕ → Option ℕ
unfolding digit_value
read_digits base acc [] = some acc
read_digits base acc (c ∷ cs) = elim (digit_value c) [
  | none ↦ none
  | some d ↦ let rest = read_digits base (acc * base + d) cs in if ltb d base then rest else none
]

-- At least one digit.
unfoldable pub read_number : ℕ → List ℕ → Option ℕ
unfolding read_digits
read_number base [] = none
read_number base (c ∷ cs) = read_digits base 0 (c ∷ cs)

unfoldable pub read_unsigned : List ℕ → Option ℕ
unfolding read_number
read_unsigned [] = some 0
read_unsigned (c ∷ []) = read_number 10 (c ∷ [])
read_unsigned (c ∷ p ∷ cs) =
    if c == 48 && (p == 120 || p == 88)
    then read_number 16 cs
    else if c == 48 && (p == 111 || p == 79)
    then read_number 8 cs
    else if c == 48 && (p == 98 || p == 66)
    then read_number 2 cs
    else read_number 10 (c ∷ p ∷ cs)

abbrev pub signed : (ℕ → ℤ) → Option ℕ → Option ℤ
signed f none = none
signed f (some n) = some (f n)

unfoldable pub read_signed : List ℕ → Option ℤ
unfolding read_unsigned read_number
read_signed [] = some (pos 0)
read_signed (c ∷ cs) =
    if c == 45
    then signed minus (read_number 10 cs)
    else if c == 43
    then signed pos (read_number 10 cs)
    else signed pos (read_unsigned (c ∷ cs))

-- `BigInt(text)`
unfoldable pub big_int : List ℕ → Option ℤ
unfolding trim read_signed
big_int cs = read_signed (trim cs)

unfoldable pub digits_from : ℕ → ℕ → List ℕ
digits_from zero n = []
digits_from (suc fuel) n =
    let front = digits_from fuel (n / 10) in
    if ltb n 10 then (48 + n) ∷ [] else front ++ (48 + n % 10) ∷ []

-- The decimal digits of a number: it has at most as many as its fuel, one more than itself.
unfoldable pub decimal_digits : ℕ → List ℕ
unfolding digits_from
decimal_digits n = digits_from (suc n) n

-- `String(z)`
unfoldable pub to_text : ℤ → List ℕ
unfolding decimal_digits
to_text (pos n) = decimal_digits n
to_text (negsuc n) = 45 ∷ decimal_digits (suc n)
