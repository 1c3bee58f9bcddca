-- ===== src/Prelude/Numbers.antt =====
-- Integers over the native numbers, and the numbers of the source language. A finite double is a
-- dyadic fraction m / 2^k, so its floor is exact.
use Prim.Native.Nat.{ℕ, ◌-◌, ◌*◌, ◌/◌, ◌^◌, ◌≤◌, min, max}
use mathlib.Core.Bool.{Bool, false}
use native.Mathlib.Omega.{arith}
use diiac_patchforge.Prelude.Tests.{◌==◌, leb, if◌then◌else◌}

-- `negsuc n` is -(n + 1).
pub data ℤ : Type 0 where
  pos : ℕ → ℤ
  negsuc : ℕ → ℤ

-- a - b, as an integer.
abbrev pub sub_ℕ : ℕ → ℕ → ℤ
sub_ℕ a b = if leb b a then pos (a - b) else negsuc (b - a - 1)

-- Math.max(0, z)
abbrev pub max_zero : ℤ → ℕ
max_zero (pos n) = n
max_zero (negsuc n) = 0

pub data JsNumber : Type 0 where
  nan infinity neg_infinity : JsNumber
  finite : ℤ → ℕ → JsNumber

-- Math.floor(m / 2^k)
abbrev pub floor : ℤ → ℕ → ℤ
floor (pos m) k = pos (m / 2 ^ k)
floor (negsuc m) k = negsuc (m / 2 ^ k)

-- x === n, for a natural number n
abbrev pub is_num : JsNumber → ℕ → Bool
is_num (finite (pos m) k) n = n * 2 ^ k == m
is_num _ _ = false

-- Math.max(min, Math.min(max, n))
abbrev pub clamp : ℕ → ℕ → ℤ → ℕ
clamp lo hi (pos n) = max lo (min hi n)
clamp lo hi (negsuc n) = lo

-- boundedNumber(value, fallback, min, max), where the number is what `Number(value)` gives
unfoldable pub bounded_number : JsNumber → ℕ → ℕ → ℕ → ℕ
bounded_number (finite m k) fallback lo hi = clamp lo hi (floor m k)
bounded_number _ fallback lo hi = fallback

-- A natural number as a number of the source language.
abbrev pub of_ℕ : ℕ → JsNumber
of_ℕ n = finite (pos n) 0

-- A bounded number lies in its range, if the fallback does.
pub bounded_number_bounds :
    (n : JsNumber) (fallback lo hi : ℕ)
    → lo ≤ fallback
    → fallback ≤ hi
    → (lo ≤ bounded_number n fallback lo hi) × (bounded_number n fallback lo hi ≤ hi)
unfolding bounded_number
bounded_number_bounds (finite (pos m) k) fallback lo hi h h' = omega arith
bounded_number_bounds (finite (negsuc m) k) fallback lo hi h h' = omega arith
bounded_number_bounds nan fallback lo hi h h' = (h, h')
bounded_number_bounds infinity fallback lo hi h h' = (h, h')
bounded_number_bounds neg_infinity fallback lo hi h h' = (h, h')

-- Above, a bounded number is bounded by the fallback and the upper end, whatever the lower end is
-- below that end.
pub bounded_number-le :
    (n : JsNumber) (fallback lo hi top : ℕ)
    → lo ≤ top
    → hi ≤ top
    → fallback ≤ top
    → bounded_number n fallback lo hi ≤ top
unfolding bounded_number
bounded_number-le (finite (pos m) k) fallback lo hi top h h' h'' = omega arith
bounded_number-le (finite (negsuc m) k) fallback lo hi top h h' h'' = omega arith
bounded_number-le nan fallback lo hi top h h' h'' = h''
bounded_number-le infinity fallback lo hi top h h' h'' = h''
bounded_number-le neg_infinity fallback lo hi top h h' h'' = h''
