-- ===== src/Prelude/Bits.antt =====
-- `|` of disjoint fields, `&` with a low mask and powers of two, as arithmetic.
mod Step
use Step.{bit_or_step, bit_and_step}
use mathlib.Core.Path.{◌≡◌, refl, sym, ap, ◌∙◌, ◌≡⟨◌⟩◌, ◌∎}
use native.Mathlib.Nat.{
  mul_comm, mul_left_comm, pow-suc, pow-zero, one-le-pow, mul_assoc, mul-one, add-zero, add-suc,
}
use native.Mathlib.Nat.{mul-add-div, mul-add-mod_self_left, div-add-mod}
use native.Mathlib.Omega.{arith}
use Prim.Native.Nat.{
  ℕ, zero, suc, ◌+◌, ◌-◌, ◌*◌, ◌/◌, ◌%◌, ◌^◌, ◌≤◌, ◌<◌, bit_and, bit_or, bit_or-bitwise,
}

pub pow-add : (b m n : ℕ) → b ^ (m + n) ≡ b ^ m * b ^ n
pow-add b m zero = simp (add-zero, pow-zero, mul-one)
pow-add b m (suc n) = simp (add-suc, pow-suc, pow-add b m n, mul_assoc)

-- `b` values at distance `a`, read out of a number cut off above them.
pub div_mod_window : (x a b c : ℕ) → 0 < a → x % (a * (b * c)) / a % b ≡ x / a % b
div_mod_window x a b c h = sym (
    x / a % b
    ≡⟨ ap (λ t. t / a % b)
        (sym (div-add-mod x m) ∙ ap (λ t. t + x % m) (mul_assoc a (b * c) (x / m))) ⟩
      (a * (b * c * (x / m)) + x % m) / a % b
    ≡⟨ ap (λ t. t % b) (mul-add-div h (b * c * (x / m)) (x % m)) ⟩ (b * c * (x / m) + x % m / a) % b
    ≡⟨ ap (λ t. (t + x % m / a) % b) (mul_assoc b c (x / m)) ⟩ (b * (c * (x / m)) + x % m / a) % b
    ≡⟨ mul-add-mod_self_left b (c * (x / m)) (x % m / a) ⟩ x % m / a % b ∎)
  where
    m : ℕ
    m = a * (b * c)

bit_and_nothing : (bound x : ℕ) → x < bound → bit_and x 0 ≡ 0
bit_and_nothing zero x below = absurd (omega arith)
bit_and_nothing (suc bound) zero below = refl
bit_and_nothing (suc bound) (suc x) below =
    omega (arith, bit_and_nothing bound (suc x / 2) (omega arith), bit_and_step (suc x) 0)

double : (q k : ℕ) → q * 2 ^ suc k ≡ 2 * (q * 2 ^ k)
double q k = ap (λ m. q * m) (pow-suc 2 k ∙ mul_comm (2 ^ k) 2) ∙ mul_left_comm q 2 (2 ^ k)

-- `low | (q << k)` is a sum when `low` fits `k` bits.
pub bit_or_fields : (k q low : ℕ) → low < 2 ^ k → bit_or low (q * 2 ^ k) ≡ low + q * 2 ^ k
bit_or_fields zero q low fits = ground (arith, bit_or-bitwise 0 q)
bit_or_fields (suc k) q low fits = ground (
  arith,
  double q k,
  bit_or_step low (q * 2 ^ suc k),
  bit_or_fields k q (low / 2) (omega (arith, pow-suc 2 k)),
  pow-suc 2 k,
)

masked : (k high low : ℕ) → low < 2 ^ k → bit_and (high * 2 ^ k + low) (2 ^ k - 1) ≡ low
masked zero high low fits = ground (arith, bit_and_nothing (high + low + 1) (high + low))
masked (suc k) high low fits = ground (
  arith,
  double high k,
  bit_and_step (high * 2 ^ suc k + low) (2 ^ suc k - 1),
  masked k high (low / 2) (omega (arith, pow-suc 2 k)),
  pow-suc 2 k,
)

-- A mask of `k` low bits is the remainder by `2 ^ k`.
pub bit_and_mask : (k a : ℕ) → bit_and a (2 ^ k - 1) ≡ a % 2 ^ k
bit_and_mask k a = ground (arith, masked k (a / 2 ^ k) (a % 2 ^ k), one-le-pow k 2)
