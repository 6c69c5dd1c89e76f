-- ===== src/Intpack/Pack.antt =====
-- `packResiduals`: each 8-byte read-modify-write adds one digit of the packed number.
use event_analysis.Prelude.{ℕ, ◌+◌, ◌*◌, ◌/◌, ◌%◌, ◌^◌, ◌≤◌, ◌<◌, ◌≡◌, refl, ap, ◌∙◌}
use event_analysis.Prelude.{List, [], ◌∷◌, map, length, All, arith, bit_or, ok}
use event_analysis.Prelude.Bits.{bit_or_fields}
use event_analysis.Prelude.Bytes.{IsByte, le_num, le_bytes, le_bytes-IsByte, le_num-le_bytes}
use event_analysis.Prelude.Slices.{
  splice, get_le-eq-ok, put_le-eq-ok, length-splice, splice-IsByte, le_num-splice,
}
use event_analysis.Intpack.{sub32, pack_loop}
use event_analysis.Intpack.Packing.{
  packed_num, Fits, pow_split, pow-shift-le, pow-next_pos, digits_lt,
}
use native.Mathlib.Nat.{mod-eq_of_lt, div-lt_iff_lt-mul, one-le-pow, mul-suc}

-- One round, at bit position `p`, on a buffer that holds the digits below `p`.
module _ (p r : ℕ) (buf : List ℕ) (fits : r < 2 ^ 32) (bytes : All IsByte buf)
    (room : p / 8 + 8 ≤ length buf) (below : le_num buf < 2 ^ p) where
  abbrev existing : ℕ
  existing = le_num buf / 256 ^ (p / 8)

  existing-lt : existing < 2 ^ (p % 8)
  existing-lt =
      (div-lt_iff_lt-mul (one-le-pow (p / 8) 256 (omega arith))).1
        (omega (arith, below, pow_split p))

  shifted-le : r * 2 ^ (p % 8) ≤ r * 128
  shifted-le = grind (arith, pow-shift-le p)

  abbrev word : ℕ
  word = existing + r * 2 ^ (p % 8)

  word-lt : word < 256 ^ 8
  word-lt = omega (arith, existing-lt, pow-shift-le p, shifted-le)

  abbrev pub packed_once : List ℕ
  packed_once = splice buf (p / 8) (le_bytes 8 word)

  -- The word read, and the word to be written, as the code computes them.
  pub reads : existing % 256 ^ 8 ≡ existing
  reads = mod-eq_of_lt (omega (arith, word-lt))

  pub writes : bit_or existing (r * 2 ^ (p % 8) % 2 ^ 64) ≡ word
  writes =
      ap (bit_or existing) (mod-eq_of_lt (omega (arith, word-lt)))
      ∙ bit_or_fields (p % 8) r existing existing-lt

  pub length-packed_once : length packed_once ≡ length buf
  length-packed_once = length-splice buf (p / 8) (le_bytes 8 word) room

  pub packed_once-IsByte : All IsByte packed_once
  packed_once-IsByte =
      splice-IsByte buf (p / 8) (le_bytes 8 word) room bytes (le_bytes-IsByte 8 word)

  pub le_num-packed_once : le_num packed_once ≡ le_num buf + 2 ^ p * r
  le_num-packed_once = omega (
    arith,
    le_num-splice buf (p / 8) (le_bytes 8 word) room bytes,
    ap (λ (t : ℕ). 256 ^ (p / 8) * t) reads,
    ap (λ (t : ℕ). 256 ^ (p / 8) * t) (le_num-le_bytes 8 word word-lt),
    ap (λ (t : ℕ). t * r) (pow_split p),
  )

module _ (min_val w : ℕ) (narrow : w ≤ 32) (wide : 0 < w) where
  abbrev pub residual : ℕ → ℕ
  residual v = sub32 v min_val

  residual-lt : (v : ℕ) → residual v < 2 ^ 32
  residual-lt v = omega arith

  no_wrap :
      (j : ℕ) (buf : List ℕ)
      → j * w / 8 + 8 ≤ length buf
      → length buf < 2 ^ 60
      → j * w % 2 ^ 64 ≡ j * w
  no_wrap j buf room small = mod-eq_of_lt (omega arith)

  pack_loop-suc :
      (j v : ℕ) (vs buf : List ℕ) (bytes : All IsByte buf) (room : j * w / 8 + 8 ≤ length buf)
      (below : le_num buf < 2 ^ (j * w))
      → length buf < 2 ^ 60
      → pack_loop min_val w j (v ∷ vs) buf
        ≡ pack_loop min_val w
            (j + 1)
            vs
            (packed_once (j * w) (residual v) buf (residual-lt v) bytes room below)
  unfolding pack_loop
  pack_loop-suc j v vs buf bytes room below small =
      rw
        (
          no_wrap j buf room small,
          get_le-eq-ok 8 buf (j * w / 8) bytes room,
          reads (j * w) (residual v) buf (residual-lt v) bytes room below,
          writes (j * w) (residual v) buf (residual-lt v) bytes room below,
        )
        (rw (
          put_le-eq-ok 8 buf (j * w / 8)
            (word (j * w) (residual v) buf (residual-lt v) bytes room below) room))

  -- The packed residuals are added above what the buffer holds below bit `j * w`.
  abbrev pub Packs : ℕ → List ℕ → List ℕ → Type 0
  Packs j vs buf =
      (out : List ℕ) × (pack_loop min_val w j vs buf ≡ ok out)
      × (length out ≡ length buf)
      × All IsByte out
      × (le_num out ≡ le_num buf + 2 ^ (j * w) * packed_num w (map residual vs))

  module _ (j v : ℕ) (vs buf : List ℕ) (fit : Fits w (residual v)) (bytes : All IsByte buf)
      (here : j * w / 8 + 8 ≤ length buf) (small : length buf < 2 ^ 60)
      (below : le_num buf < 2 ^ (j * w)) where
    next : List ℕ
    next = packed_once (j * w) (residual v) buf (residual-lt v) bytes here below

    length-next : length next ≡ length buf
    unfolding next
    length-next = length-packed_once (j * w) (residual v) buf (residual-lt v) bytes here below

    next-IsByte : All IsByte next
    unfolding next
    next-IsByte = packed_once-IsByte (j * w) (residual v) buf (residual-lt v) bytes here below

    le_num-next : le_num next ≡ le_num buf + 2 ^ (j * w) * residual v
    unfolding next
    le_num-next = le_num-packed_once (j * w) (residual v) buf (residual-lt v) bytes here below

    le_num-next_lt : le_num next < 2 ^ ((j + 1) * w)
    le_num-next_lt = omega (
      arith,
      le_num-next,
      pow-next_pos j w,
      digits_lt (2 ^ (j * w)) (2 ^ w) (le_num buf) (residual v) below fit,
    )

    next-Packs : Packs (j + 1) vs next → Packs j (v ∷ vs) buf
    unfolding next
    next-Packs (out, runs, same, out_bytes, num) = (
      out,
      pack_loop-suc j v vs buf bytes here below small ∙ runs,
      same ∙ length-next,
      out_bytes,
      omega (
        arith,
        num,
        le_num-next,
        ap (λ (t : ℕ). t * packed_num w (map residual vs)) (pow-next_pos j w),
      ),
    )

  pub pack_loop-Packs :
      (j : ℕ) (vs buf : List ℕ)
      → All (λ v. Fits w (residual v)) vs
      → All IsByte buf
      → j * w + w * length vs + 96 ≤ 8 * length buf
      → length buf < 2 ^ 60
      → le_num buf < 2 ^ (j * w)
      → Packs j vs buf
  pack_loop-Packs j [] buf fit bytes room small below =
      (buf, unfold pack_loop in refl, refl, bytes, omega arith)
  pack_loop-Packs j (v ∷ vs) buf fit bytes room small below =
      let here : j * w / 8 + 8 ≤ length buf = omega (arith, room) in
      let same = length-next j v vs buf fit.0 bytes here small below in
      next-Packs j v vs buf fit.0 bytes here small below (
        pack_loop-Packs (j + 1) vs (next j v vs buf fit.0 bytes here small below) fit.1
          (next-IsByte j v vs buf fit.0 bytes here small below)
          (omega (arith, same, room, mul-suc w (length vs))) (omega (arith, same, small))
          (le_num-next_lt j v vs buf fit.0 bytes here small below))
