-- ===== src/Intpack/RoundTrip.antt =====
-- `DecodeGroup` reads a group back from the tail of any buffer.
use event_analysis.Prelude.{ℕ, ◌+◌, ◌-◌, ◌*◌, ◌/◌, ◌%◌, ◌^◌, ◌≤◌, ◌<◌, ◌≡◌, refl, sym, ap, ap₂, ◌∙◌}
use event_analysis.Prelude.{
  List, [], ◌∷◌, ◌++◌, map, length, All, arith, ok, append_assoc, length-append, length-map, lt→ltb,
  le→leb, ne→==_false, ok-injective,
}
use event_analysis.Prelude.Bytes.{le_num, le_bytes, length-le_bytes, le_num-le_bytes}
use event_analysis.Prelude.Slices.{slice, index, get_le, index-append, get_le-append, slice-append}
use event_analysis.Intpack.{
  Error, IsU32, sub32, pack_size, max_values, unpack_loop, unpack_residuals, encode_group,
  decode_group,
}
use event_analysis.Intpack.Packing.{packed_num, Fits, int_bits_lem}
use event_analysis.Intpack.Layout.{IsGroup, layout, encode_group-IsGroup, map-Fits}
use event_analysis.Intpack.Unpack.{unpack_loop_lem}
use native.Mathlib.Nat.{div-one, zero-mul}

pack_size_pos : (w n : ℕ) → 0 < w → 0 < n → 0 < pack_size w n
pack_size_pos w n h k = let bits : 0 < w * n = grind arith in omega arith

pub length-layout : (m w : ℕ) (body : List ℕ) → length body + 5 ≡ length (layout m w body)
length-layout m w body =
    omega (arith, length-append (body ++ (w ∷ [])) (le_bytes 4 m), length-append body (w ∷ []))

residuals_back :
    (m w : ℕ) (vs : List ℕ)
    → w ≤ 32
    → m < 2 ^ 32
    → All IsU32 vs
    → All (λ v. (m ≤ v) × Fits w (sub32 v m)) vs
    → map (λ r. (m + r % 2 ^ 32) % 2 ^ 32) (map (λ v. sub32 v m) vs) ≡ vs
residuals_back m w [] narrow word words h = refl
residuals_back m w (v ∷ vs) narrow word words h =
    ap₂ ◌∷◌ (omega (arith, h.0, words.0)) (residuals_back m w vs narrow word words.1 h.1)

-- A group in the documented layout, at the end of any buffer.
module _ (front values body : List ℕ) (m w : ℕ) (g : IsGroup values m w body)
    (words : All IsU32 values) (some_values : 0 < length values)
    (small : length values < 2 ^ 32) where
  abbrev buf : List ℕ
  buf = front ++ layout m w body

  tail_eq : buf ≡ (front ++ body) ++ (w ∷ le_bytes 4 m)
  tail_eq =
      ap (λ t. front ++ t) (append_assoc body (w ∷ []) (le_bytes 4 m))
      ∙ sym (append_assoc front body (w ∷ le_bytes 4 m))

  min_eq : buf ≡ ((front ++ body) ++ (w ∷ [])) ++ (le_bytes 4 m ++ [])
  min_eq = tail_eq ∙ sym (append_assoc (front ++ body) (w ∷ []) (le_bytes 4 m))

  body_eq : buf ≡ front ++ (body ++ (w ∷ le_bytes 4 m))
  body_eq = tail_eq ∙ append_assoc front body (w ∷ le_bytes 4 m)

  length-buf : length buf ≡ length front + length body + 5
  length-buf =
      ap length tail_eq
      ∙ omega (arith, length-append (front ++ body) (w ∷ le_bytes 4 m), length-append front body)

  reads_width : index {E = Error} buf (length buf - 5) ≡ ok w
  reads_width =
      ap (λ t. index t (length buf - 5)) tail_eq
      ∙ index-append (front ++ body) w (le_bytes 4 m) (length buf - 5)
          (omega (arith, length-buf, length-append front body))

  reads_min : get_le {E = Error} 4 buf (length buf - 4) ≡ ok m
  reads_min =
      ap (λ t. get_le 4 t (length buf - 4)) min_eq
      ∙ get_le-append 4 ((front ++ body) ++ (w ∷ [])) (le_bytes 4 m) [] (length buf - 4)
          (omega
            (arith, length-buf, length-append (front ++ body) (w ∷ []), length-append front body))
          (length-le_bytes 4 m)
      ∙ ap ok (le_num-le_bytes 4 m (omega (arith, g.word)))

  reads_body :
      slice {E = Error} buf (length buf - 5 - pack_size w (length values)) (length buf - 5)
      ≡ ok body
  reads_body =
      ap (λ t. slice t (length buf - 5 - pack_size w (length values)) (length buf - 5)) body_eq
      ∙ slice-append front body (w ∷ le_bytes 4 m) _ _ (omega (arith, length-buf, g.size))
          (omega (arith, length-buf, g.size))

  unpacks : unpack_residuals body (length values) w m ≡ ok values
  unfolding unpack_residuals
  unpacks = rw (ne→==_false w 0 (omega (arith, g.wide))) (
      ap (λ n. unpack_loop body w m n 0) (sym (length-map (λ v. sub32 v m) values))
      ∙ unpack_loop_lem body w m 0 rs g.bytes g.narrow (omega (arith, room, same))
          (map-Fits m w values g.residuals) start
      ∙ ap ok (residuals_back m w values g.narrow g.word words g.residuals))
    where
      rs : List ℕ
      rs = map (λ v. sub32 v m) values

      same : w * length rs ≡ w * length values
      same = ap (λ n. w * n) (length-map (λ v. sub32 v m) values)

      room : w * length values ≤ 32 * length values
      room = grind (arith, g.narrow)

      start : le_num body / 2 ^ (0 * w) ≡ packed_num w rs
      start = ap (λ t. le_num body / 2 ^ t) (zero-mul w) ∙ div-one (le_num body) ∙ g.digits

  pub decode_group-layout : decode_group buf (length values) ≡ ok (values, length body + 5)
  unfolding decode_group
  decode_group-layout =
      let bits = int_bits_lem w (length values) g.narrow (omega (arith, small)) in
      rw
        (
          lt→ltb 0 (length values) some_values,
          le→leb 5 (length buf) (omega (arith, length-buf)),
          reads_width,
          le→leb w 32 g.narrow,
          reads_min,
          bits.0,
          bits.1,
          le→leb (pack_size w (length values) + 5) (length buf) (omega (arith, length-buf, g.size)),
          le→leb (length values) max_values (omega (arith, small)),
          reads_body,
          unpacks,
          ← g.size,
        )
        refl

-- `EncodeGroup` of uint32 values, at least one and fewer than 2^32, returns a group, and `DecodeGroup`
-- of any bytes followed by it returns those values and the length of the group.
pub decode_group-encode_group :
    (front values : List ℕ)
    → All IsU32 values
    → 0 < length values
    → length values < 2 ^ 32
    → (group : List ℕ) × (encode_group values ≡ ok group)
      × (decode_group (front ++ group) (length values) ≡ ok (values, length group))
decode_group-encode_group front [] words some_values small = absurd (omega arith)
decode_group-encode_group front (v ∷ vs) words some_values small =
    let (m, w, body, e, g) = encode_group-IsGroup v vs words small in
    (
      layout m w body,
      e,
      decode_group-layout front (v ∷ vs) body m w g words some_values small
          ∙ ap (λ n. ok (v ∷ vs, n)) (length-layout m w body),
    )

-- The same of any group that `EncodeGroup` returned, with a bound on its length.
pub decode_group_of_encode :
    (front values group : List ℕ)
    → All IsU32 values
    → 0 < length values
    → length values < 2 ^ 32
    → encode_group values ≡ ok group
    → (decode_group (front ++ group) (length values) ≡ ok (values, length group))
      × (6 ≤ length group)
decode_group_of_encode front [] group words some_values small e = absurd (omega arith)
decode_group_of_encode front (v ∷ vs) group words some_values small e =
    let (m, w, body, e', g) = encode_group-IsGroup v vs words small in
    let same : layout m w body ≡ group = ok-injective (sym e' ∙ e) in
    (
      ap (λ t. decode_group (front ++ t) (length (v ∷ vs))) (sym same)
          ∙ decode_group-layout front (v ∷ vs) body m w g words some_values small
          ∙ ap (λ n. ok (v ∷ vs, n)) (length-layout m w body ∙ ap length same),
      omega (
        arith,
        ap length same,
        length-layout m w body,
        g.size,
        pack_size_pos w (length (v ∷ vs)) g.wide some_values,
      ),
    )
