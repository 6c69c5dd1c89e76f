-- ===== src/Intpack/Packing.antt =====
-- What a packed group stands for: one number whose digits in base `2 ^ w` are the residuals.
use event_analysis.Prelude.{
  ℕ, zero, suc, ◌+◌, ◌*◌, ◌/◌, ◌%◌, ◌^◌, ◌≤◌, ◌<◌, ◌≡◌, refl, sym, ap, ◌∙◌,
}
use event_analysis.Prelude.{List, [], ◌∷◌, length, All, arith, leb, leb→le, false}
use event_analysis.Intpack.{int_bits, max_values}
use event_analysis.Prelude.Bits.{pow-add}
use native.Mathlib.Nat.{pow-suc, pow-le-pow_right, mul-zero, mul-suc, div-add-mod, mod-eq_of_lt}

abbrev pub packed_num : ℕ → List ℕ → ℕ
packed_num w [] = 0
packed_num w (r ∷ rs) = r + 2 ^ w * packed_num w rs

abbrev pub Fits : ℕ → ℕ → Type 0
Fits w r = r < 2 ^ w

pub pow-mul_suc : (w n : ℕ) → 2 ^ (w * suc n) ≡ 2 ^ w * 2 ^ (w * n)
pow-mul_suc w n = ap (λ t. 2 ^ t) (omega (arith, mul-suc w n)) ∙ pow-add 2 w (w * n)

pub pow-next_pos : (j w : ℕ) → 2 ^ ((j + 1) * w) ≡ 2 ^ (j * w) * 2 ^ w
pow-next_pos j w = ap (λ t. 2 ^ t) (omega arith) ∙ pow-add 2 (j * w) w

pub digits_lt : (b c x y : ℕ) → x < b → y < c → x + b * y < b * c
digits_lt b c x y h k = grind arith

pub packed_num-lt : (w : ℕ) (rs : List ℕ) → All (Fits w) rs → packed_num w rs < 2 ^ (w * length rs)
packed_num-lt w [] h = rw mul-zero (omega arith)
packed_num-lt w (r ∷ rs) h = omega (
  arith,
  pow-mul_suc w (length rs),
  digits_lt (2 ^ w) (2 ^ (w * length rs)) r (packed_num w rs) h.0 (packed_num-lt w rs h.1),
)

pub pow-byte : (n : ℕ) → 256 ^ n ≡ 2 ^ (8 * n)
pow-byte zero = refl
pow-byte (suc n) = omega (arith, pow-suc 256 n, pow-byte n, pow-mul_suc 8 n)

-- A bit position as whole bytes and a shift within the byte.
pub pow_split : (p : ℕ) → 2 ^ p ≡ 256 ^ (p / 8) * 2 ^ (p % 8)
pow_split p =
    ap (λ t. 2 ^ t) (sym (div-add-mod p 8))
    ∙ pow-add 2 (8 * (p / 8)) (p % 8)
    ∙ ap (λ t. t * 2 ^ (p % 8)) (sym (pow-byte (p / 8)))

pub pow-shift-le : (p : ℕ) → 2 ^ (p % 8) ≤ 128
pow-shift-le p = pow-le-pow_right {n = 2} (omega arith) {j = 7} (omega arith)

-- The size of a group in memory does not wrap.
pub int_bits_lem :
    (w n : ℕ)
    → w ≤ 32
    → n ≤ max_values
    → (int_bits w n ≡ w * n + 7) × (leb (2 ^ 63) (w * n + 7) ≡ false)
unfolding int_bits
int_bits_lem w n narrow few =
    let room : w * n ≤ 32 * n = grind (arith, narrow) in
    (mod-eq_of_lt (omega (arith, room, few)), ground (arith, leb→le (2 ^ 63) (w * n + 7)))
