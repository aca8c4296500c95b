-- ===== src/Prelude/Bits.antt =====
-- `^` with the highest bit of a word, as arithmetic.
use Prim.Native.Nat.{
  ℕ, zero, suc, ◌+◌, ◌-◌, ◌/◌, ◌%◌, ◌^◌, ◌≤◌, ◌<◌, bit_xor, digits, differ, bit_xor-bitwise,
}
use mathlib.Core.Path.{◌≡◌, refl, ◌∙◌}
use native.Mathlib.Omega.{arith}
use native.Mathlib.Nat.{pow-suc}
use minigraf.Prelude.Tests.{ltb, if◌then◌else◌}

-- The digit recursion that `bit_xor` stands for, with `n` rounds.
abbrev xor_rounds : ℕ → ℕ → ℕ → ℕ
xor_rounds n a b = digits (λ b. b) differ n a b

-- The number with its bit `k` flipped, where that is the highest bit.
abbrev pub flip_top : ℕ → ℕ → ℕ
flip_top k a = if ltb a (2 ^ k) then a + 2 ^ k else a - 2 ^ k

differ_zero : (x : ℕ) → differ x 0 ≡ x
differ_zero zero = refl
differ_zero (suc x) = refl

half_power : (k : ℕ) → (2 ^ suc k / 2 ≡ 2 ^ k) × (2 ^ suc k % 2 ≡ 0)
half_power k = omega (arith, pow-suc 2 k)

power_pos : (k : ℕ) → 0 < 2 ^ k
power_pos zero = omega arith
power_pos (suc k) = omega (arith, pow-suc 2 k, power_pos k)

no_bits : (n : ℕ) → xor_rounds n 0 0 ≡ 0
no_bits zero = refl
no_bits (suc n) = refl

xor_rounds_top : (n k a : ℕ) → a ≤ n → a < 2 ^ suc k → xor_rounds n a (2 ^ k) ≡ flip_top k a
xor_rounds_top zero k zero h hk = ground (arith, power_pos k)
xor_rounds_top zero k (suc a) h hk = absurd (omega arith)
xor_rounds_top (suc n) k zero h hk = ground (arith, power_pos k)
xor_rounds_top (suc n) zero (suc zero) h hk = omega (arith, no_bits n)
xor_rounds_top (suc n) zero (suc (suc a)) h hk = absurd (omega arith)
xor_rounds_top (suc n) (suc k) (suc a) h hk = ground (
  arith,
  half_power k,
  differ_zero (suc a % 2),
  pow-suc 2 k,
  pow-suc 2 (suc k),
  xor_rounds_top n k (suc a / 2),
)

-- Exclusive or with 2 ^ k flips the bit `k` of a number of k + 1 bits.
pub bit_xor_top : (k a : ℕ) → a < 2 ^ suc k → bit_xor a (2 ^ k) ≡ flip_top k a
bit_xor_top k a h = bit_xor-bitwise a (2 ^ k) ∙ xor_rounds_top a k a (omega arith) h
