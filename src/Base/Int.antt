-- ===== src/Base/Int.antt =====
-- Signed integers over the native numbers, under the library's names: what a caller passes as a
-- `bigint` or an integral `number` may be negative. `negsuc n` is -(n + 1).
use Prim.Native.Nat.{ℕ, zero, suc, ◌+◌, ◌-◌, ◌*◌, ◌/◌, ◌%◌}
use mathlib.Core.Logic.{◌⊎◌, inl, inr}
use mathlib.Core.Path.{◌≡◌, refl}
use sorostream_sdk.Base.Tests.{leb, if◌then◌else◌}

pub data ℤ : Type 0 where
  pos : ℕ → ℤ
  negsuc : ℕ → ℤ

-- -n
abbrev pub minus : ℕ → ℤ
minus zero = pos 0
minus (suc n) = negsuc n

abbrev pub neg : ℤ → ℤ
neg (pos n) = minus n
neg (negsuc n) = pos (suc n)

abbrev pub difference : ℕ → ℕ → ℤ
difference a b = if leb b a then pos (a - b) else minus (b - a)

infixl 35 ◌+ℤ◌
abbrev pub ◌+ℤ◌ : ℤ → ℤ → ℤ
pos a +ℤ pos b = pos (a + b)
pos a +ℤ negsuc b = difference a (suc b)
negsuc a +ℤ pos b = difference b (suc a)
negsuc a +ℤ negsuc b = negsuc (suc (a + b))

-- z * k
abbrev pub scale : ℤ → ℕ → ℤ
scale (pos n) k = pos (n * k)
scale (negsuc n) k = minus (suc n * k)

-- `z / k` and `z % k` of bigints: the quotient is cut towards 0, and the remainder has the sign of `z`.
abbrev pub quotient : ℤ → ℕ → ℤ
quotient (pos n) k = pos (n / k)
quotient (negsuc n) k = minus (suc n / k)

abbrev pub remainder : ℤ → ℕ → ℤ
remainder (pos n) k = pos (n % k)
remainder (negsuc n) k = minus (suc n % k)

pub sign_cases :
    (z : ℤ) → ((n : ℕ) × (z ≡ pos (suc n))) ⊎ ((z ≡ pos 0) ⊎ ((n : ℕ) × (z ≡ negsuc n)))
sign_cases (pos zero) = inr (inl refl)
sign_cases (pos (suc n)) = inl (n, refl)
sign_cases (negsuc n) = inr (inr (n, refl))
