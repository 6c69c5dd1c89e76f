-- ===== src/Intpack/Width.antt =====
-- `rangeWidth`: the minimum, and a width that every residual fits.
use event_analysis.Prelude.{ℕ, zero, suc, ◌*◌, ◌/◌, ◌^◌, ◌≤◌, ◌<◌, ◌≡◌, refl, sym, ap, ◌∙◌, min}
use event_analysis.Prelude.{
  List, [], ◌∷◌, All, arith, ok, false, ◌⊎◌, if◌then◌else◌, ◌==◌, Bool-cases, inl, inr, ==_iff,
  get_elem?, some,
}
use event_analysis.Intpack.{IsU32, slices_min, slices_max, bit_len, sub32, range_width}
use event_analysis.Intpack.Packing.{Fits}
use native.Mathlib.Nat.{pow-suc}
use Prim.Native.Nat.{max}

abbrev pub IsOneOf : ℕ → List ℕ → Type 0
IsOneOf x vs = (i : ℕ) × (get_elem? vs i ≡ some x)

slices_min-le : (m : ℕ) (vs : List ℕ) → slices_min m vs ≤ m
unfolding slices_min
slices_min-le m [] = omega arith
slices_min-le m (v ∷ vs) = omega (arith, slices_min-le (min m v) vs)

slices_max-le : (m : ℕ) (vs : List ℕ) → m ≤ slices_max m vs
unfolding slices_max
slices_max-le m [] = omega arith
slices_max-le m (v ∷ vs) = omega (arith, slices_max-le (max m v) vs)

-- Both bounds, for the rest of the slice.
slices_bounds :
    (lo hi : ℕ) (vs : List ℕ) → All (λ v. (slices_min lo vs ≤ v) × (v ≤ slices_max hi vs)) vs
unfolding slices_min slices_max
slices_bounds lo hi [] = tt
slices_bounds lo hi (v ∷ vs) = (
  (omega (arith, slices_min-le (min lo v) vs), omega (arith, slices_max-le (max hi v) vs)),
  slices_bounds (min lo v) (max hi v) vs,
)

-- A value that is picked out of the first two stands in the whole slice.
picked :
    (a b c x : ℕ) (vs : List ℕ) → (c ≡ a) ⊎ (c ≡ b) → IsOneOf x (c ∷ vs) → IsOneOf x (a ∷ (b ∷ vs))
picked a b c x vs (inl e) (zero, at) = (0, ap some (sym e) ∙ at)
picked a b c x vs (inr e) (zero, at) = (1, ap some (sym e) ∙ at)
picked a b c x vs h (suc i, at) = (suc (suc i), at)

min-IsOneOf : (a b : ℕ) → (min a b ≡ a) ⊎ (min a b ≡ b)
min-IsOneOf a b = ground arith

max-IsOneOf : (a b : ℕ) → (max a b ≡ a) ⊎ (max a b ≡ b)
max-IsOneOf a b = ground arith

slices_min-IsOneOf : (m : ℕ) (vs : List ℕ) → IsOneOf (slices_min m vs) (m ∷ vs)
unfolding slices_min
slices_min-IsOneOf m [] = (0, refl)
slices_min-IsOneOf m (v ∷ vs) =
    picked m v (min m v) _ vs (min-IsOneOf m v) (slices_min-IsOneOf (min m v) vs)

slices_max-IsOneOf : (m : ℕ) (vs : List ℕ) → IsOneOf (slices_max m vs) (m ∷ vs)
unfolding slices_max
slices_max-IsOneOf m [] = (0, refl)
slices_max-IsOneOf m (v ∷ vs) =
    picked m v (max m v) _ vs (max-IsOneOf m v) (slices_max-IsOneOf (max m v) vs)

slices_max-lt : (b m : ℕ) (vs : List ℕ) → m < b → All (λ v. v < b) vs → slices_max m vs < b
unfolding slices_max
slices_max-lt b m [] h k = h
slices_max-lt b m (v ∷ vs) h k = slices_max-lt b (max m v) vs (omega (arith, k.0)) k.1

-- `bits.Len32`: the least exponent whose power of two is above the number.
bit_len_bound : (rounds n : ℕ) → n < 2 ^ rounds → n < 2 ^ bit_len rounds n
unfolding bit_len
bit_len_bound zero n h = h
bit_len_bound (suc rounds) n h = elim (Bool-cases (n == 0)) [
  | inl e ↦ rw e (omega (arith, (==_iff n 0).0 e))
  | inr e ↦ rw e (
      omega (
        arith,
        pow-suc 2 rounds,
        pow-suc 2 (bit_len rounds (n / 2)),
        bit_len_bound rounds (n / 2) (omega (arith, pow-suc 2 rounds)),
      ))
]

pub bit_len-le : (rounds n : ℕ) → bit_len rounds n ≤ rounds
unfolding bit_len
bit_len-le zero n = omega arith
bit_len-le (suc rounds) n = ground (arith, bit_len-le rounds (n / 2))

bit_len-zero : (rounds : ℕ) → bit_len rounds 0 ≡ 0
unfolding bit_len
bit_len-zero zero = refl
bit_len-zero (suc rounds) = refl

e_pos : (n : ℕ) → (n == 0) ≡ false → 0 < n
e_pos n e = ground arith

half_cases :
    (rounds m : ℕ)
    → (0 < m → 2 ^ bit_len rounds m ≤ m * 2)
    → (m ≡ 0) × (2 ^ bit_len rounds m ≡ 1) ⊎ (2 ^ bit_len rounds m ≤ m * 2)
half_cases rounds zero h = inl (refl, ap (λ t. 2 ^ t) (bit_len-zero rounds))
half_cases rounds (suc m) h = inr (h (omega arith))

-- No smaller exponent would do.
bit_len_least : (rounds n : ℕ) → 0 < n → 2 ^ bit_len rounds n ≤ n * 2
unfolding bit_len
bit_len_least zero n h = omega arith
bit_len_least (suc rounds) n h = elim (Bool-cases (n == 0)) [
  | inl e ↦ rw e (omega arith)
  | inr e ↦ rw e (
      omega (
        arith,
        pow-suc 2 (bit_len rounds (n / 2)),
        half_cases rounds (n / 2) (bit_len_least rounds (n / 2)),
        e_pos n e,
      ))
]

-- Every value lies between the bounds, so its residual is at most their distance.
residuals_fit :
    (lo hi w : ℕ) (vs : List ℕ)
    → hi < 2 ^ 32
    → lo ≤ hi
    → sub32 hi lo < 2 ^ w
    → All (λ v. (lo ≤ v) × (v ≤ hi)) vs
    → All (λ v. (lo ≤ v) × Fits w (sub32 v lo)) vs
residuals_fit lo hi w [] top order fit h = tt
residuals_fit lo hi w (v ∷ vs) top order fit h =
    ((h.0.0, omega (arith, h.0)), residuals_fit lo hi w vs top order fit h.1)

module _ (v : ℕ) (vs : List ℕ) (words : All IsU32 (v ∷ vs)) where
  abbrev lo : ℕ
  lo = slices_min v vs

  abbrev spread : ℕ
  spread = sub32 (slices_max v vs) lo

  abbrev width : ℕ
  width = if bit_len 32 spread == 0 then 1 else bit_len 32 spread

  width_bounds : (0 < width) × (width ≤ 32) × (spread < 2 ^ width)
  width_bounds = elim (Bool-cases (bit_len 32 spread == 0)) [
    | inl e ↦ rw e (
        omega (
          arith,
          ap (λ t. 2 ^ t) ((==_iff (bit_len 32 spread) 0).0 e),
          bit_len_bound 32 spread (omega arith),
        ))
    | inr e ↦ rw e (e_pos _ e, bit_len-le 32 spread, bit_len_bound 32 spread (omega arith))
  ]

  -- The width is the least that fits the distance, but at least 1.
  width_least : (width ≡ 1) ⊎ (2 ^ width ≤ spread * 2)
  width_least = elim (Bool-cases (bit_len 32 spread == 0)) [
    | inl e ↦ rw e (inl refl)
    | inr e ↦ rw e (elim (spread_cases spread refl) [
      | inl none_left ↦ absurd (omega (arith, e_pos _ e, none_left))
      | inr some_left ↦ inr (bit_len_least 32 spread some_left)
    ])
  ]
    where
      spread_cases : (d : ℕ) → d ≡ spread → (bit_len 32 spread ≡ 0) ⊎ (0 < spread)
      spread_cases zero q = inl (ap (bit_len 32) (sym q) ∙ bit_len-zero 32)
      spread_cases (suc d) q = inr (omega (arith, q))

  -- For a first value and more, all uint32: `rangeWidth` returns a minimum below 2^32 and a width from
  -- 1 to 32 such that the minimum is one of the values, no value is below it and every residual fits
  -- the width, and the width is 1 or the residual of the maximum, which is one of the values, has the
  -- width's highest bit.
  pub range_width_lem :
      (m w : ℕ) × (range_width (v ∷ vs) ≡ ok (m, w))
      × (0 < w)
      × (w ≤ 32)
      × (m < 2 ^ 32)
      × All (λ x. (m ≤ x) × Fits w (sub32 x m)) (v ∷ vs)
      × ((w ≡ 1) ⊎ (2 ^ w ≤ sub32 (slices_max v vs) m * 2))
      × IsOneOf m (v ∷ vs)
      × IsOneOf (slices_max v vs) (v ∷ vs)
  unfolding range_width
  range_width_lem = (
    lo,
    width,
    refl,
    width_bounds.0,
    width_bounds.1,
    omega (arith, words.0, slices_min-le v vs),
    residuals_fit lo (slices_max v vs) width (v ∷ vs) (slices_max-lt (2 ^ 32) v vs words.0 words.1)
        (omega (arith, slices_min-le v vs, slices_max-le v vs)) width_bounds.2
        ((slices_min-le v vs, slices_max-le v vs), slices_bounds v v vs),
    width_least,
    slices_min-IsOneOf v vs,
    slices_max-IsOneOf v vs,
  )
