-- ===== src/Graph/Float.antt =====
-- Rust's `f64` as its bit pattern: the parts of IEEE 754 that the order of values rests on.
use minigraf.Prelude.Int.{ℤ, pos, negsuc, compare_ℤ}
use minigraf.Prelude.{
  ℕ, zero, suc, ◌/◌, ◌%◌, ◌^◌, ◌<◌, Ordering, Bool, not, ◌||◌, Option, none, some, ltb, ◌==◌,
  if◌then◌else◌,
}

-- The range of a bit pattern.
abbrev pub IsF64 : ℕ → Type 0
IsF64 bits = bits < 2 ^ 64

-- `f64::is_nan`: all exponent bits are set and the fraction is not 0.
abbrev pub is_nan : ℕ → Bool
is_nan bits = ltb 0x7ff0_0000_0000_0000 (bits % 2 ^ 63)

-- `f64::is_sign_negative`
abbrev pub is_sign_negative : ℕ → Bool
is_sign_negative bits = not (bits / 2 ^ 63 == 0)

abbrev pub negate : ℕ → ℤ
negate zero = pos 0
negate (suc n) = negsuc n

-- A number that grows with the value of a float that is not NaN; both zeros have 0.
abbrev pub magnitude : ℕ → ℤ
magnitude bits = if is_sign_negative bits then negate (bits % 2 ^ 63) else pos (bits % 2 ^ 63)

-- `f64::partial_cmp`
abbrev pub partial_cmp : ℕ → ℕ → Option Ordering
partial_cmp a b =
    if is_nan a || is_nan b then none else some (compare_ℤ (magnitude a) (magnitude b))
