-- ===== src/Intpack/Unpack.antt =====
-- `unpackResiduals`: each read recovers one digit of the packed number.
use event_analysis.Prelude.{
  ℕ, zero, suc, ◌+◌, ◌-◌, ◌*◌, ◌/◌, ◌%◌, ◌^◌, ◌≤◌, ◌<◌, ◌≡◌, refl, sym, ap, ◌∙◌,
}
use event_analysis.Prelude.{
  List, [], ◌∷◌, map, length, take, drop, get_elem?, All, arith, bit_or, bit_and, ok, none, some,
}
use event_analysis.Prelude.{
  Option-cases, Bool-cases, ltb, ltb→lt, inl, inr, All_get, drop_of_none, drop_of_some, All-drop,
}
use event_analysis.Prelude.Bits.{bit_or_fields, bit_and_mask, div_mod_window, pow-add}
use event_analysis.Prelude.Bytes.{IsByte, le_num, le_num-take, le_num-drop}
use event_analysis.Prelude.Slices.{get_le-eq-ok}
use event_analysis.Intpack.{tail_raw, read_raw, unpack_loop}
use event_analysis.Intpack.Packing.{packed_num, Fits, pow_split, pow-next_pos, digits_lt}
use native.Mathlib.Nat.{add-mul-mod_self_left, add-mul-div_left, div-eq_of_lt, zero-add, mul-suc}
use native.Mathlib.Nat.{mod-eq_of_lt, add-zero, one-le-pow, div-div-eq-div-mul, pow-le-pow_right}

tail_raw-none :
    (packed : List ℕ) (byte_pos left k raw : ℕ)
    → get_elem? packed (byte_pos + k) ≡ none
    → tail_raw packed byte_pos (suc left) k raw ≡ raw
unfolding tail_raw
tail_raw-none packed byte_pos left k raw e = rw (e, tail_raw)

tail_raw-some :
    (packed : List ℕ) (byte_pos left k raw b : ℕ)
    → get_elem? packed (byte_pos + k) ≡ some b
    → tail_raw packed byte_pos (suc left) k raw
      ≡ tail_raw packed byte_pos left (k + 1) (bit_or raw (b * 2 ^ (k * 8) % 2 ^ 64))
unfolding tail_raw
tail_raw-some packed byte_pos left k raw b e = rw (e, tail_raw)

next_index : (i k : ℕ) → i + (k + 1) ≡ suc (i + k)
next_index i k = omega arith

or_byte :
    (k b raw : ℕ)
    → b < 256
    → k ≤ 7
    → raw < 2 ^ (k * 8)
    → bit_or raw (b * 2 ^ (k * 8) % 2 ^ 64) ≡ raw + b * 2 ^ (k * 8)
or_byte k b raw byte h low =
    ap (bit_or raw) (mod-eq_of_lt (omega (arith, shifted, room))) ∙ bit_or_fields (k * 8) b raw low
  where
    room : 2 ^ (k * 8) ≤ 2 ^ 56
    room = pow-le-pow_right {n = 2} (omega arith) {j = 56} (omega arith)

    shifted : b * 2 ^ (k * 8) ≤ 255 * 2 ^ (k * 8)
    shifted = grind arith

-- The bytes that are there, read one by one.
tail_raw_lem :
    (packed : List ℕ) (byte_pos left k raw : ℕ)
    → All IsByte packed
    → k + left ≤ 8
    → raw < 2 ^ (k * 8)
    → tail_raw packed byte_pos left k raw
      ≡ raw + 2 ^ (k * 8) * le_num (take left (drop (byte_pos + k) packed))
tail_raw_lem packed byte_pos zero k raw bytes h low = unfold tail_raw in omega arith
tail_raw_lem packed byte_pos (suc left) k raw bytes h low =
    elim (Option-cases (get_elem? packed (byte_pos + k))) [
      | inl e ↦
          tail_raw-none packed byte_pos left k raw e
          ∙ rw (drop_of_none packed (byte_pos + k) e) (omega arith)
      | inr (b, e) ↦
          tail_raw-some packed byte_pos left k raw b e
          ∙ ap (tail_raw packed byte_pos left (k + 1))
              (or_byte k b raw (All_get IsByte packed (byte_pos + k) bytes e) (omega arith) low)
          ∙ tail_raw_lem packed byte_pos left (k + 1) (raw + b * 2 ^ (k * 8)) bytes (omega arith) (
              omega (
                arith,
                pow-next_pos k 8,
                digits_lt (2 ^ (k * 8)) 256 raw b low
                    (All_get IsByte packed (byte_pos + k) bytes e),
              ))
          ∙ rw (drop_of_some packed (byte_pos + k) e) (
              omega (
                arith,
                ap (λ (i : ℕ). le_num (take left (drop i packed))) (next_index byte_pos k),
                ap (λ (t : ℕ). t * le_num (take left (drop (suc (byte_pos + k)) packed)))
                    (pow-next_pos k 8),
                ap (λ (i : ℕ). 2 ^ ((k + 1) * 8) * le_num (take left (drop i packed)))
                    (next_index byte_pos k),
              ))
    ]

-- Both ways of reading give the 64 bits from byte `byte_pos` on, zeros behind the end.
read_raw_lem :
    (packed : List ℕ) (byte_pos : ℕ)
    → All IsByte packed
    → read_raw packed byte_pos ≡ ok (le_num packed / 256 ^ byte_pos % 256 ^ 8)
unfolding read_raw
read_raw_lem packed byte_pos bytes = elim (Bool-cases (ltb (byte_pos + 7) (length packed))) [
  | inl e ↦ rw e (get_le-eq-ok 8 packed byte_pos bytes (omega (arith, ltb→lt _ _ e)))
  | inr e ↦ rw e (
      ap ok (
        tail_raw_lem packed byte_pos 8 0 0 bytes (omega arith) (omega arith)
        ∙ omega (arith, ap (λ (i : ℕ). le_num (take 8 (drop i packed))) (add-zero byte_pos))
        ∙ le_num-take 8 (drop byte_pos packed) (All-drop IsByte byte_pos packed bytes)
        ∙ ap (λ t. t % 256 ^ 8) (le_num-drop byte_pos packed bytes)))
]

-- The field of `w` bits at bit position `p`.
field_lem :
    (n p w : ℕ)
    → w ≤ 32
    → bit_and (n / 256 ^ (p / 8) % 256 ^ 8 / 2 ^ (p % 8)) (2 ^ w - 1) ≡ n / 2 ^ p % 2 ^ w
field_lem n p w narrow =
    bit_and_mask w (n / 256 ^ (p / 8) % 256 ^ 8 / 2 ^ (p % 8))
    ∙ ap (λ t. n / 256 ^ (p / 8) % t / 2 ^ (p % 8) % 2 ^ w) word
    ∙ div_mod_window (n / 256 ^ (p / 8)) (2 ^ (p % 8)) (2 ^ w) (2 ^ (64 - p % 8 - w))
        (one-le-pow (p % 8) 2 (omega arith))
    ∙ ap (λ t. t % 2 ^ w) (div-div-eq-div-mul n (256 ^ (p / 8)) (2 ^ (p % 8)))
    ∙ ap (λ t. n / t % 2 ^ w) (sym (pow_split p))
  where
    total : 64 ≡ p % 8 + (w + (64 - p % 8 - w))
    total = omega arith

    word : 256 ^ 8 ≡ 2 ^ (p % 8) * (2 ^ w * 2 ^ (64 - p % 8 - w))
    word =
        ap (λ t. 2 ^ t) total
        ∙ pow-add 2 (p % 8) (w + (64 - p % 8 - w))
        ∙ ap (λ t. 2 ^ (p % 8) * t) (pow-add 2 w (64 - p % 8 - w))

-- The loop reads off the digits of the packed number from index `j` on.
pub unpack_loop_lem :
    (packed : List ℕ) (w m j : ℕ) (rs : List ℕ)
    → All IsByte packed
    → w ≤ 32
    → j * w + w * length rs < 2 ^ 64
    → All (Fits w) rs
    → le_num packed / 2 ^ (j * w) ≡ packed_num w rs
    → unpack_loop packed w m (length rs) j ≡ ok (map (λ r. (m + r % 2 ^ 32) % 2 ^ 32) rs)
unfolding unpack_loop
unpack_loop_lem packed w m j [] bytes narrow small fit e = refl
unpack_loop_lem packed w m j (r ∷ rs) bytes narrow small fit e =
    rw
      (
        wrap,
        read_raw_lem packed (j * w / 8) bytes,
        unpack_loop_lem packed w m (j + 1) rs bytes narrow
            (omega (arith, small, mul-suc w (length rs))) fit.1 higher,
        field_lem (le_num packed) (j * w) w narrow,
        digit,
      )
      refl
  where
    wrap : j * w % 2 ^ 64 ≡ j * w
    wrap = mod-eq_of_lt (omega (arith, small))

    digit : le_num packed / 2 ^ (j * w) % 2 ^ w ≡ r
    digit =
        ap (λ t. t % 2 ^ w) e
        ∙ add-mul-mod_self_left r (2 ^ w) (packed_num w rs)
        ∙ mod-eq_of_lt fit.0

    higher : le_num packed / 2 ^ ((j + 1) * w) ≡ packed_num w rs
    higher =
        ap (λ t. le_num packed / t) (pow-next_pos j w)
        ∙ sym (div-div-eq-div-mul (le_num packed) (2 ^ (j * w)) (2 ^ w))
        ∙ ap (λ t. t / 2 ^ w) e
        ∙ add-mul-div_left r (packed_num w rs) (one-le-pow w 2 (omega arith))
        ∙ ap (λ t. t + packed_num w rs) (div-eq_of_lt fit.0)
        ∙ zero-add (packed_num w rs)
