-- ===== src/Bytes/BigEndian.antt =====
-- Big-endian integers sort as the integers do.
use minigraf.Prelude.Order.{and_then, compare_bytes}
use minigraf.Prelude.{
  ℕ, zero, suc, ◌+◌, ◌*◌, ◌/◌, ◌%◌, ◌^◌, ◌≤◌, ◌<◌, compare, ◌≡◌, refl, sym, ap, ap₂, ◌∙◌, arith,
  length, All,
}
use native.Mathlib.Nat.{
  div-add-mod, mod-lt, pow-suc, mod-eq_of_lt, mul-le-mul_left, mul-add-mod_self_left,
}
use minigraf.Bytes.{IsByte, to_be}

pub length-to_be : (k n : ℕ) → length (to_be k n) ≡ k
unfolding to_be
length-to_be zero n = refl
length-to_be (suc k) n = ap suc (length-to_be k n)

pub to_be-IsByte : (k n : ℕ) → All IsByte (to_be k n)
unfolding to_be
to_be-IsByte zero n = tt
to_be-IsByte (suc k) n = (omega arith, to_be-IsByte k n)

pow_pos : (k : ℕ) → 0 < 256 ^ k
pow_pos zero = omega arith
pow_pos (suc k) = omega (arith, pow_pos k, pow-suc 256 k)

digit_gap : (m x y : ℕ) → x < y → x * m + m ≤ y * m
digit_gap m x y h = omega (arith, mul-le-mul_left m h)

-- Two-digit numbers in base `m` are compared by the high digit, then by the low one.
compare_digits :
    (m x y r s : ℕ)
    → r < m
    → s < m
    → compare (x * m + r) (y * m + s) ≡ and_then (compare x y) (compare r s)
compare_digits m x y r s hr hs =
    ground (arith, digit_gap m x y, digit_gap m y x, ap (λ t. t * m) {x = x} {y = y})

split_digit : (m n : ℕ) → 0 < m → n % (m * 256) ≡ n / m % 256 * m + n % m
split_digit m n h =
    let low : ℕ = n / m % 256 * m + n % m in
    ap (λ t. t % (m * 256)) split
    ∙ mul-add-mod_self_left (m * 256) (n / m / 256) low
    ∙ mod-eq_of_lt (omega (arith, digit_gap m (n / m % 256) 256 (omega arith), mod-lt n h))
  where
    split : n ≡ m * 256 * (n / m / 256) + (n / m % 256 * m + n % m)
    split = omega (arith, div-add-mod n m, ap (λ t. m * t) (div-add-mod (n / m) 256))

compare_bytes-to_be_mod :
    (k a b : ℕ) → compare_bytes (to_be k a) (to_be k b) ≡ compare (a % 256 ^ k) (b % 256 ^ k)
unfolding to_be
compare_bytes-to_be_mod zero a b = ground arith
compare_bytes-to_be_mod (suc k) a b =
    ap (and_then (compare (a / 256 ^ k % 256) (b / 256 ^ k % 256))) (compare_bytes-to_be_mod k a b)
    ∙ sym (
        compare_digits (256 ^ k) (a / 256 ^ k % 256) (b / 256 ^ k % 256) (a % 256 ^ k) (b % 256 ^ k)
          (mod-lt a (pow_pos k)) (mod-lt b (pow_pos k)))
    ∙ ap₂ compare (sym (digits_of a)) (sym (digits_of b))
  where
    digits_of : (n : ℕ) → n % 256 ^ suc k ≡ n / 256 ^ k % 256 * 256 ^ k + n % 256 ^ k
    digits_of n = rw (pow-suc 256 k) (split_digit (256 ^ k) n (pow_pos k))

-- Numbers that fit `k` bytes are ordered as their big-endian bytes are.
pub compare_bytes-to_be :
    (k a b : ℕ) → a < 256 ^ k → b < 256 ^ k → compare_bytes (to_be k a) (to_be k b) ≡ compare a b
compare_bytes-to_be k a b ha hb =
    compare_bytes-to_be_mod k a b ∙ ap₂ compare (mod-eq_of_lt ha) (mod-eq_of_lt hb)
