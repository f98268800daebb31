-- ===== src/Prelude/Bits.antt =====
-- Masks of ones: `bit_and` with one is the remainder by a power of two.
use Prim.Native.Nat.{
  ℕ, zero, suc, ◌+◌, ◌-◌, ◌*◌, ◌/◌, ◌%◌, ◌^◌, ◌≤◌, ◌<◌, min, bit_and, digits, bit_and-bitwise,
}
use mathlib.Core.Path.{◌≡◌, ◌∙◌, sym}
use native.Mathlib.Omega.{arith}
use native.Mathlib.Nat.{pow-suc, mod-eq_of_lt}

pub pow_pos : (k : ℕ) → 0 < 2 ^ k
pow_pos zero = omega arith
pow_pos (suc k) = omega (arith, pow-suc 2 k, pow_pos k)

-- The recursion on binary digits that `bit_and` stands for, with a mask of `k` ones.
abbrev mask_digits : ℕ → ℕ → ℕ → ℕ
mask_digits fuel k a = digits (λ b. zero) min fuel a (2 ^ k - 1)

-- Halving a number halves the mask.
mod_double : (a p : ℕ) → 0 < p → a % (p * 2) ≡ (a / 2) % p * 2 + a % 2
mod_double a p h = grind arith

half_mask : (p : ℕ) → 0 < p → (p * 2 - 1) / 2 ≡ p - 1
half_mask p h = omega arith

last_one : (a p : ℕ) → 0 < p → min (a % 2) ((p * 2 - 1) % 2) ≡ a % 2
last_one a p h = omega arith

mask_digits_lem : (fuel k a : ℕ) → a ≤ fuel → mask_digits fuel k a ≡ a % 2 ^ k
mask_digits_lem zero k zero h = sym (mod-eq_of_lt (pow_pos k))
mask_digits_lem zero k (suc a) h = absurd (omega arith)
mask_digits_lem (suc fuel) k zero h = sym (mod-eq_of_lt (pow_pos k))
mask_digits_lem (suc fuel) zero (suc a) h =
    omega (arith, mask_digits_lem fuel zero (suc a / 2) (omega arith))
mask_digits_lem (suc fuel) (suc k) (suc a) h = rw (
  pow-suc 2 k,
  mod_double (suc a) (2 ^ k) (pow_pos k),
  half_mask (2 ^ k) (pow_pos k),
  last_one (suc a) (2 ^ k) (pow_pos k),
  mask_digits_lem fuel k (suc a / 2) (omega arith),
)

pub bit_and-mask : (k a : ℕ) → bit_and a (2 ^ k - 1) ≡ a % 2 ^ k
bit_and-mask k a = bit_and-bitwise a (2 ^ k - 1) ∙ mask_digits_lem a k a (omega arith)
