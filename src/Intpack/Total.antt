-- ===== src/Intpack/Total.antt =====
-- DecodeGroup of intpack/intpack.go on arbitrary bytes.
use event_analysis.Prelude.{
  ℕ, zero, suc, ◌+◌, ◌-◌, ◌*◌, ◌/◌, ◌%◌, ◌^◌, ◌≤◌, ◌<◌, ◌≡◌, ◌⊎◌, bit_and, inl, inr, refl, ap,
  arith,
}
use event_analysis.Prelude.{
  List, [], ◌∷◌, length, take, drop, replicate, ok, err, true, ltb, leb, ◌==◌, Bool-cases, ltb→lt,
  leb→le, le→leb, length-replicate,
}
use event_analysis.Prelude.Bytes.{le_num}
use event_analysis.Prelude.Slices.{index, get_le, slice-eq-ok}
use event_analysis.Intpack.Packing.{int_bits_lem}
use event_analysis.Intpack.{
  Error, bad_count, buf_short, bad_width, payload_short, pack_size, max_values, read_raw, tail_raw,
  unpack_loop, unpack_residuals, decode_group,
}

reads_in_range :
    (k : ℕ) (buf : List ℕ) (i : ℕ)
    → i + k ≤ length buf
    → (v : ℕ) × (get_le {E = Error} k buf i ≡ ok v)
unfolding get_le
reads_in_range k buf i h = (le_num (take k (drop i buf)), rw (le→leb (i + k) (length buf) h) refl)

index_in_range :
    (buf : List ℕ) (i : ℕ) → i < length buf → (b : ℕ) × (index {E = Error} buf i ≡ ok b)
unfolding index
index_in_range [] i h = absurd (omega arith)
index_in_range (x ∷ xs) zero h = (x, refl)
index_in_range (x ∷ xs) (suc i) h = index_in_range xs i (omega (arith, h))

read_raw_total : (packed : List ℕ) (i : ℕ) → (raw : ℕ) × (read_raw packed i ≡ ok raw)
unfolding read_raw
read_raw_total packed i = elim (Bool-cases (ltb (i + 7) (length packed))) [
  | inl inside ↦
      let (v, e) = reads_in_range 8 packed i (omega (arith, ltb→lt _ _ inside)) in
      (v, rw (inside, e) refl)
  | inr outside ↦ (tail_raw packed i 8 0 0, rw outside refl)
]

unpack_loop_total :
    (packed : List ℕ) (w m left j : ℕ)
    → (values : List ℕ) × (unpack_loop packed w m left j ≡ ok values) × (length values ≡ left)
unfolding unpack_loop
unpack_loop_total packed w m zero j = ([], refl, refl)
unpack_loop_total packed w m (suc left) j =
    let (raw, read) = read_raw_total packed (j * w % 2 ^ 64 / 8) in
    let (values, e, size) = unpack_loop_total packed w m left (j + 1) in
    (
      (m + bit_and (raw / 2 ^ (j * w % 2 ^ 64 % 8)) (2 ^ w - 1) % 2 ^ 32) % 2 ^ 32 ∷ values,
      rw (read, e) refl,
      ap suc size,
    )

unpack_residuals_total :
    (packed : List ℕ) (n w m : ℕ)
    → (values : List ℕ) × (unpack_residuals packed n w m ≡ ok values) × (length values ≡ n)
unfolding unpack_residuals
unpack_residuals_total packed n w m = elim (Bool-cases (w == 0)) [
  | inl none_wide ↦ (replicate n m, rw none_wide refl, length-replicate n m)
  | inr wide ↦ let (values, e, size) = unpack_loop_total packed w m n 0 in (values, rw wide e, size)
]

-- The ways in which a call of `DecodeGroup` ends.
abbrev pub Ends : List ℕ → ℕ → Type 0
Ends buf n =
    ((e : Error) × (decode_group buf n ≡ err e))
    ⊎ ((values : List ℕ) × (consumed : ℕ) × (decode_group buf n ≡ ok (values, consumed))
        × (length values ≡ n)
        × (5 ≤ consumed)
        × (consumed ≤ length buf))

module _ (buf : List ℕ) (n : ℕ) (few : n ≤ max_values) (some_wanted : ltb 0 n ≡ true)
    (long : leb 5 (length buf) ≡ true) where
  module _ (width : ℕ) (reads_width : index {E = Error} buf (length buf - 5) ≡ ok width)
      (narrow : leb width 32 ≡ true) (m : ℕ)
      (reads_min : get_le {E = Error} 4 buf (length buf - 4) ≡ ok m)
      (fits : leb (pack_size width n + 5) (length buf) ≡ true) where
    abbrev size : ℕ
    size = pack_size width n

    abbrev packed : List ℕ
    packed = take (length buf - 5 - (length buf - 5 - size)) (drop (length buf - 5 - size) buf)

    whole : Ends buf n
    unfolding decode_group
    whole =
        let bits = int_bits_lem width n (leb→le width 32 narrow) few in
        let (values, unpacks, count) = unpack_residuals_total packed n width m in
        inr (
          values,
          size + 5,
          rw
              (
                some_wanted,
                long,
                reads_width,
                narrow,
                reads_min,
                bits.0,
                bits.1,
                fits,
                le→leb n max_values few,
                slice-eq-ok buf (length buf - 5 - size) (length buf - 5) (omega arith)
                    (omega arith),
                unpacks,
              )
              refl,
          count,
          omega arith,
          leb→le (size + 5) (length buf) fits,
        )

  footer : Ends buf n
  unfolding decode_group
  footer =
      let (width, reads_width) =
        index_in_range buf (length buf - 5) (omega (arith, leb→le 5 (length buf) long)) in
      let (m, reads_min) =
        reads_in_range 4 buf (length buf - 4) (omega (arith, leb→le 5 (length buf) long)) in
      elim (Bool-cases (leb width 32)) [
        | inr wide ↦ inl (bad_width width, rw (some_wanted, long, reads_width, wide) refl)
        | inl narrow ↦ elim (Bool-cases (leb (pack_size width n + 5) (length buf))) [
          | inr over ↦ inl (
            payload_short (length buf) (pack_size width n + 5),
            let bits = int_bits_lem width n (leb→le width 32 narrow) few in
                rw (some_wanted, long, reads_width, narrow, reads_min, bits.0, bits.1, over) refl,
          )
          | inl fits ↦ whole width reads_width narrow m reads_min fits
        ]
      ]

-- For any bytes and any `n` up to 2^46, the most values that a slice can hold, `DecodeGroup` returns
-- an error, or `n` values with a number of bytes consumed that is at least 5 and at most the number of
-- bytes; it does not panic.
pub decode_group-Ends : (buf : List ℕ) (n : ℕ) → n ≤ max_values → Ends buf n
unfolding decode_group
decode_group-Ends buf n few = elim (Bool-cases (ltb 0 n)) [
  | inr none_wanted ↦ inl (bad_count, rw none_wanted refl)
  | inl some_wanted ↦ elim (Bool-cases (leb 5 (length buf))) [
    | inr short ↦ inl (buf_short (length buf), rw (some_wanted, short) refl)
    | inl long ↦ footer buf n few some_wanted long
  ]
]
