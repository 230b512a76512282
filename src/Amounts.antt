-- ===== src/Amounts.antt =====
-- `toStroops`, `expandScientific` and `formatUSDC` without options, of utils.ts. A text is the list of
-- the codes of its characters, and `BigInt` of a text is written out as the language defines it;
-- `none` is the SyntaxError that it throws. The number of decimals is not negative, and a text that
-- is too long for the engine is not modelled.
pub mod Literals
pub mod Digits
pub mod RoundTrip
pub mod Nearest
mod Tests
use Literals.{trim, big_int, read_number, signed, to_text}
use sorostream_sdk.Base.{
  ℕ, zero, suc, ◌+◌, ◌-◌, ◌*◌, ◌^◌, Bool, true, false, ◌&&◌, ◌||◌, Option, none, some, List, [],
  ◌∷◌, ◌++◌, Eq, nat_eq, ◌==◌, leb, if◌then◌else◌, length, take,
}
use sorostream_sdk.Base.Int.{ℤ, pos, negsuc, minus, neg, ◌+ℤ◌, scale, quotient, remainder}

pub data Rounding : Type 0 where
  half_up truncate : Rounding

-- `text.slice(n)`
unfoldable pub slice_from : ℕ → List ℕ → List ℕ
slice_from zero cs = cs
slice_from (suc n) [] = []
slice_from (suc n) (c ∷ cs) = slice_from n cs

-- `'0'.repeat(n)`
unfoldable pub zeros : ℕ → List ℕ
zeros zero = []
zeros (suc n) = 48 ∷ zeros n

abbrev pub is_decimal : ℕ → Bool
is_decimal c = leb 48 c && leb c 57

-- The longest front of decimal digits, and what is behind it.
unfoldable pub take_digits : List ℕ → List ℕ
take_digits [] = []
take_digits (c ∷ cs) = let rest = take_digits cs in if is_decimal c then c ∷ rest else []

unfoldable pub drop_digits : List ℕ → List ℕ
drop_digits [] = []
drop_digits (c ∷ cs) = let rest = drop_digits cs in if is_decimal c then rest else c ∷ cs

-- The text up to the first code `sep`, and the text behind it, if it occurs.
unfoldable pub before_code : ℕ → List ℕ → List ℕ
before_code sep [] = []
before_code sep (c ∷ cs) = let rest = before_code sep cs in if c == sep then [] else c ∷ rest

unfoldable pub after_code : ℕ → List ℕ → List ℕ
after_code sep [] = []
after_code sep (c ∷ cs) = let rest = after_code sep cs in if c == sep then cs else rest

unfoldable pub has_exponent : List ℕ → Bool
has_exponent [] = false
has_exponent (c ∷ cs) = c == 101 || c == 69 || has_exponent cs

abbrev pub starts_with : ℕ → List ℕ → Bool
starts_with d [] = false
starts_with d (c ∷ cs) = c == d

-- A text without its first code, if that is `d`.
abbrev pub without : ℕ → List ℕ → List ℕ
without d [] = []
without d (c ∷ cs) = if c == d then cs else c ∷ cs

-- `[+-]?\d+$`
abbrev pub match_exponent : List ℕ → Option ℤ
match_exponent [] = none
match_exponent (c ∷ cs) =
    if c == 43
    then signed pos (read_number 10 cs)
    else if c == 45
    then signed minus (read_number 10 cs)
    else signed pos (read_number 10 (c ∷ cs))

-- `[eE]`, then the exponent.
abbrev pub match_e : List ℕ → Option ℤ
match_e [] = none
match_e (c ∷ cs) = if c == 101 || c == 69 then match_exponent cs else none

-- The point `dot` of the shifted number, put between its digits.
unfoldable pub place_point : List ℕ → List ℕ → ℤ → List ℕ
unfolding slice_from zeros
place_point sign digits (negsuc n) = sign ++ 48 ∷ 46 ∷ zeros (suc n) ++ digits
place_point sign digits (pos zero) = sign ++ 48 ∷ 46 ∷ digits
place_point sign digits (pos (suc n)) =
    if leb (length digits) (suc n)
    then sign ++ digits ++ zeros (suc n - length digits)
    else sign ++ take (suc n) digits ++ 46 ∷ slice_from (suc n) digits

abbrev pub expand_parts : List ℕ → List ℕ → List ℕ → List ℕ → Option ℤ → List ℕ
expand_parts s sign int_part frac_part none = s
expand_parts s sign int_part frac_part (some exp) =
    place_point sign (int_part ++ frac_part) (pos (length int_part) +ℤ exp)

abbrev pub is_blank : List ℕ → Bool
is_blank [] = true
is_blank (c ∷ cs) = false

unfoldable pub expand_scientific : List ℕ → List ℕ
unfolding place_point take_digits drop_digits read_number
expand_scientific s =
    let sign = (if starts_with 45 s then 45 ∷ [] else []) in
    let int_part = take_digits (without 45 s) in
    let rest = drop_digits (without 45 s) in
    let pointed = starts_with 46 rest in
    let frac_part = (if pointed then take_digits (without 46 rest) else []) in
    let after = (if pointed then drop_digits (without 46 rest) else rest) in
    if is_blank int_part || pointed && is_blank frac_part
    then s
    else expand_parts s sign int_part frac_part (match_e after)

-- `text || '0'`
abbrev pub or_zero : List ℕ → List ℕ
or_zero [] = 48 ∷ []
or_zero (c ∷ cs) = c ∷ cs

abbrev pub pad_start : ℕ → List ℕ → List ℕ
pad_start n cs = zeros (n - length cs) ++ cs

abbrev pub pad_end : ℕ → List ℕ → List ℕ
pad_end n cs = cs ++ zeros (n - length cs)

abbrev pub add_units : Option ℤ → Option ℤ → ℕ → Option ℤ
add_units (some w) (some f) factor = some (scale w factor +ℤ f)
add_units (some w) none factor = none
add_units none f factor = none

-- `BigInt(whole || '0') * factor + BigInt(fraction || '0')`
unfoldable pub units : List ℕ → List ℕ → ℕ → Option ℤ
unfolding big_int
units whole fraction decimals =
    add_units (big_int (or_zero whole)) (big_int (or_zero fraction)) (10 ^ decimals)

-- Whether the first code that is cut off counts up.
abbrev pub rounds_up : Rounding → List ℕ → Bool
rounds_up truncate cs = false
rounds_up half_up [] = false
rounds_up half_up (c ∷ cs) = leb 53 c

abbrev pub round_if : Bool → Option ℤ → Option ℤ
round_if up none = none
round_if up (some z) = some (if up then z +ℤ pos 1 else z)

unfoldable pub unsigned_stroops : List ℕ → List ℕ → ℕ → Rounding → Option ℤ
unfolding units slice_from zeros
unsigned_stroops whole decimal decimals rounding =
    if leb (length decimal) decimals
    then units whole (pad_end decimals decimal) decimals
    else round_if (rounds_up rounding (slice_from decimals decimal))
        (units whole (take decimals decimal) decimals)

unfoldable pub to_stroops : List ℕ → ℕ → Rounding → Option ℤ
unfolding unsigned_stroops before_code after_code expand_scientific has_exponent trim
to_stroops amount decimals rounding =
    let trimmed = trim amount in
    let expanded = (if has_exponent trimmed then expand_scientific trimmed else trimmed) in
    let unsigned = without 45 expanded in
    let value =
      unsigned_stroops (before_code 46 unsigned) (before_code 46 (after_code 46 unsigned)) decimals
        rounding in
    if starts_with 45 expanded then signed_neg value else value
  where
    signed_neg : Option ℤ → Option ℤ
    signed_neg none = none
    signed_neg (some z) = some (neg z)

unfoldable pub format_usdc : ℤ → ℕ → List ℕ
unfolding to_text zeros
format_usdc stroops decimals =
    to_text (quotient stroops (10 ^ decimals))
    ++ 46 ∷ pad_start decimals (to_text (remainder stroops (10 ^ decimals)))
