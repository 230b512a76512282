-- ===== src/Amounts/Nearest.antt =====
-- Digits beyond the decimals of a token are rounded to the nearest unit.
use sorostream_sdk.Base.{
  ℕ, suc, ◌+◌, ◌-◌, ◌*◌, ◌^◌, ◌≤◌, ◌<◌, ◌≡◌, refl, sym, ap, ◌∙◌, Bool, true, false, some, List, [],
  ◌∷◌, ◌++◌, leb, if◌then◌else◌, length, length-append, take, All, All-append, if_elim, subst,
  arith,
}
use sorostream_sdk.Base.Int.{pos}
use native.Mathlib.Nat.{pow-suc, mul-le-mul_right}
use sorostream_sdk.Amounts.{
  Rounding, half_up, slice_from, round_if, rounds_up, unsigned_stroops, to_stroops,
}
use sorostream_sdk.Amounts.Digits.{IsDigit, value, value-append}
use sorostream_sdk.Amounts.RoundTrip.{to_stroops-parts, units-value}

shift_step : (a e t v : ℕ) → (a * 10 + e) * t + v ≡ a * (t * 10) + (e * t + v)
shift_step a e t v = grind arith

below_step : (e t v u w : ℕ) → e ≤ 9 → v < t → u ≡ t * 10 → w ≡ e * t + v → w < u
below_step e t v u w small below unit sum =
    omega (arith, mul-le-mul_right t small, below, unit, sum)

first_value : (c : ℕ) (cs : List ℕ) → value 0 (c ∷ cs) ≡ value (c - 48) cs
first_value c cs = let same : 0 * 10 + (c - 48) ≡ c - 48 = omega arith in ap (λ a. value a cs) same

-- What stands before digits counts as many places more.
value_shift : (acc : ℕ) (cs : List ℕ) → value acc cs ≡ acc * 10 ^ length cs + value 0 cs
value_shift acc [] = omega arith
value_shift acc (c ∷ cs) =
    value_shift (acc * 10 + (c - 48)) cs
    ∙ shift_step acc (c - 48) (10 ^ length cs) (value 0 cs)
    ∙ ap (λ t. acc * t + ((c - 48) * 10 ^ length cs + value 0 cs)) (sym (pow-suc 10 (length cs)))
    ∙ ap (λ v. acc * 10 ^ suc (length cs) + v) (sym (first_value c cs ∙ value_shift (c - 48) cs))

value_below : (cs : List ℕ) → All IsDigit cs → value 0 cs < 10 ^ length cs
value_below [] h = omega arith
value_below (c ∷ cs) (p, h) =
    below_step (c - 48) (10 ^ length cs) (value 0 cs) (10 ^ suc (length cs)) (value 0 (c ∷ cs))
      (omega (arith, p)) (value_below cs h) (pow-suc 10 (length cs))
      (first_value c cs ∙ value_shift (c - 48) cs)

take-front : (xs ys : List ℕ) → take (length xs) (xs ++ ys) ≡ xs
take-front [] ys = refl
take-front (x ∷ xs) ys = ap (x ∷◌) (take-front xs ys)

slice_from-front : (xs ys : List ℕ) → slice_from (length xs) (xs ++ ys) ≡ ys
unfolding slice_from
slice_from-front [] ys = refl
slice_from-front (x ∷ xs) ys = slice_from-front xs ys

-- `v` units are `exact` parts, `unit` of them to a unit, to the nearest unit, and up from the middle.
pub IsNearest : ℕ → ℕ → ℕ → Type 0
IsNearest exact unit v = (2 * exact < 2 * (v * unit) + unit) × (2 * (v * unit) ≤ 2 * exact + unit)

-- The value of a text that is cut behind `kept`.
cut_value :
    (whole kept : List ℕ) (c : ℕ) (cs : List ℕ) (rounding : Rounding)
    → All IsDigit whole
    → All IsDigit kept
    → unsigned_stroops whole (kept ++ c ∷ cs) (length kept) rounding
      ≡ round_if
          (rounds_up rounding (c ∷ cs))
          (some (pos (value 0 whole * 10 ^ length kept + value 0 kept)))
unfolding unsigned_stroops
cut_value whole kept c cs rounding h k =
    let long : leb (length (kept ++ c ∷ cs)) (length kept) ≡ false =
      ground (arith, length-append kept (c ∷ cs)) in
    rw
      (
        long,
        take-front kept (c ∷ cs),
        slice_from-front kept (c ∷ cs),
        units-value whole kept (length kept) h k,
      )
      refl

IsNearest-up :
    (n e t v u w : ℕ)
    → 5 ≤ e
    → e ≤ 9
    → v < t
    → u ≡ t * 10
    → w ≡ n * u + (e * t + v)
    → IsNearest w u (n + 1)
unfolding IsNearest
IsNearest-up n e t v u w large small below unit sum =
    let least : 5 * t ≤ e * t = mul-le-mul_right t large in
    let most : e * t ≤ 9 * t = mul-le-mul_right t small in grind (arith, least, most)

IsNearest-down :
    (n e t v u w : ℕ) → e ≤ 4 → v < t → u ≡ t * 10 → w ≡ n * u + (e * t + v) → IsNearest w u n
unfolding IsNearest
IsNearest-down n e t v u w small below unit sum =
    let most : e * t ≤ 4 * t = mul-le-mul_right t small in grind (arith, most)

value_parts :
    (n c : ℕ) (cs : List ℕ)
    → value n (c ∷ cs) ≡ n * 10 ^ suc (length cs) + ((c - 48) * 10 ^ length cs + value 0 cs)
value_parts n c cs =
    value_shift n (c ∷ cs)
    ∙ ap (λ v. n * 10 ^ suc (length cs) + v) (first_value c cs ∙ value_shift (c - 48) cs)

-- The first digit that is cut off decides which unit is nearest.
cut-IsNearest :
    (n c : ℕ) (cs : List ℕ)
    → IsDigit c
    → All IsDigit cs
    → IsNearest (value n (c ∷ cs)) (10 ^ suc (length cs)) (if leb 53 c then n + 1 else n)
cut-IsNearest n c cs p h =
    if_elim (IsNearest (value n (c ∷ cs)) (10 ^ suc (length cs))) (leb 53 c)
      (λ up.
        IsNearest-up n (c - 48) (10 ^ length cs) (value 0 cs) (10 ^ suc (length cs))
          (value n (c ∷ cs)) (ground (arith, up)) (omega (arith, p)) (value_below cs h)
          (pow-suc 10 (length cs)) (value_parts n c cs))
      (λ down.
        IsNearest-down n (c - 48) (10 ^ length cs) (value 0 cs) (10 ^ suc (length cs))
          (value n (c ∷ cs)) (ground (arith, down)) (value_below cs h) (pow-suc 10 (length cs))
          (value_parts n c cs))

whole_value :
    (whole kept : List ℕ) (c : ℕ) (cs : List ℕ)
    → value 0 (whole ++ (kept ++ c ∷ cs))
      ≡ value (value 0 whole * 10 ^ length kept + value 0 kept) (c ∷ cs)
whole_value whole kept c cs =
    value-append 0 whole (kept ++ c ∷ cs)
    ∙ value-append (value 0 whole) kept (c ∷ cs)
    ∙ ap (λ v. value v (c ∷ cs)) (value_shift (value 0 whole) kept)

round_if-pos :
    (up : Bool) (n : ℕ) → round_if up (some (pos n)) ≡ some (pos (if up then n + 1 else n))
round_if-pos true n = refl
round_if-pos false n = refl

-- A text with more digits behind the point than the token has decimals is rounded half up to the
-- nearest unit: `kept` are the digits that the token has, and `c` and `cs` those beyond.
pub to_stroops-IsNearest :
    (whole kept : List ℕ) (c : ℕ) (cs : List ℕ)
    → All IsDigit whole
    → All IsDigit kept
    → IsDigit c
    → All IsDigit cs
    → (v : ℕ) × (to_stroops (whole ++ 46 ∷ (kept ++ c ∷ cs)) (length kept) half_up ≡ some (pos v))
      × IsNearest (value 0 (whole ++ (kept ++ c ∷ cs))) (10 ^ suc (length cs)) v
to_stroops-IsNearest whole kept c cs h k p l =
    let n = value 0 whole * 10 ^ length kept + value 0 kept in
    (
      if leb 53 c then n + 1 else n,
      to_stroops-parts whole (kept ++ c ∷ cs) (length kept) half_up h
            (All-append IsDigit kept (c ∷ cs) k (p, l))
          ∙ cut_value whole kept c cs half_up h k
          ∙ round_if-pos (leb 53 c) n,
      subst (λ e. IsNearest e (10 ^ suc (length cs)) (if leb 53 c then n + 1 else n))
          (sym (whole_value whole kept c cs)) (cut-IsNearest n c cs p l),
    )
