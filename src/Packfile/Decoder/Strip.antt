-- ===== src/Packfile/Decoder/Strip.antt =====
-- The index at the end of a record, as `Decode` takes it off (packfile/decoder.go).
use event_analysis.Prelude.{ℕ, ◌+◌, ◌-◌, ◌^◌, ◌<◌, ◌≡◌, refl, sym, ap, ◌∙◌}
use event_analysis.Prelude.{
  List, [], ◌∷◌, ◌++◌, length, All, arith, ok, le→leb, eq→==, length-append, append-nil,
  append_assoc, ok-injective, subst,
}
use event_analysis.Prelude.Bytes.{le_bytes, length-le_bytes, le_num-le_bytes}
use event_analysis.Prelude.Slices.{slice, index, get_le, index-append, get_le-append, slice-append}
use event_analysis.Intpack.{IsU32, encode_group, pack_size}
use event_analysis.Intpack.Layout.{IsGroup, layout, encode_group-IsGroup}
use event_analysis.Intpack.RoundTrip.{length-layout}
use event_analysis.Hash.Crc32c.{checksum-lt}
use event_analysis.Packfile.{Error, crc32c}
use event_analysis.Packfile.Decoder.{strip_index}

pub crc32c-lt : (b : List ℕ) → crc32c b < 2 ^ 32
unfolding crc32c
crc32c-lt b = checksum-lt b

-- The four parts behind the payload, as `Decode` looks for them.
module _ (stored values body : List ℕ) (m w : ℕ) (g : IsGroup values m w body) where
  group : List ℕ
  group = layout m w body

  bs : List ℕ
  bs = stored ++ (group ++ le_bytes 4 (crc32c group))

  length-group : length group ≡ length body + 5
  unfolding group
  length-group = sym (length-layout m w body)

  length-bs : length bs ≡ length stored + pack_size w (length values) + 9
  unfolding bs
  length-bs = omega (
    arith,
    g.size,
    length-group,
    length-append stored (group ++ le_bytes 4 (crc32c group)),
    length-append group (le_bytes 4 (crc32c group)),
    length-le_bytes 4 (crc32c group),
  )

  reads_width : index {E = Error} bs (length bs - 9) ≡ ok w
  unfolding bs group
  reads_width =
      ap (λ t. index t (length bs - 9)) regroup
      ∙ index-append (stored ++ body) w (le_bytes 4 m ++ le_bytes 4 (crc32c group)) (length bs - 9)
          (omega (arith, length-bs, g.size, length-append stored body))
    where
      regroup : bs ≡ (stored ++ body) ++ (w ∷ (le_bytes 4 m ++ le_bytes 4 (crc32c group)))
      regroup =
          ap (λ t. stored ++ t)
            (append_assoc (body ++ (w ∷ [])) (le_bytes 4 m) (le_bytes 4 (crc32c group))
              ∙ append_assoc body (w ∷ []) (le_bytes 4 m ++ le_bytes 4 (crc32c group)))
          ∙ sym (append_assoc stored body (w ∷ (le_bytes 4 m ++ le_bytes 4 (crc32c group))))

  reads_index :
      slice {E = Error} bs (length bs - 9 - pack_size w (length values)) (length bs - 4) ≡ ok group
  unfolding bs
  reads_index =
      slice-append stored group (le_bytes 4 (crc32c group)) _ _ (omega (arith, length-bs, g.size))
        (omega (arith, length-bs, g.size, length-group))

  reads_crc : get_le {E = Error} 4 bs (length bs - 4) ≡ ok (crc32c group)
  unfolding bs
  reads_crc =
      ap (λ t. get_le 4 t (length bs - 4)) regroup
      ∙ get_le-append 4 (stored ++ group) (le_bytes 4 (crc32c group)) [] (length bs - 4)
          (omega (arith, length-group, length-bs, g.size, length-append stored group))
          (length-le_bytes 4 (crc32c group))
      ∙ ap ok (le_num-le_bytes 4 (crc32c group) (crc32c-lt group))
    where
      regroup : bs ≡ (stored ++ group) ++ (le_bytes 4 (crc32c group) ++ [])
      regroup =
          sym (append_assoc stored group (le_bytes 4 (crc32c group)))
          ∙ ap (λ t. (stored ++ group) ++ t) (sym (append-nil (le_bytes 4 (crc32c group))))

  reads_front : slice {E = Error} bs 0 (length bs - 9 - pack_size w (length values)) ≡ ok stored
  unfolding bs
  reads_front =
      slice-append [] stored (group ++ le_bytes 4 (crc32c group)) 0 _ refl
        (omega (arith, length-bs))

  stripped : strip_index (length values) bs ≡ ok (group, stored)
  unfolding strip_index
  stripped =
      rw
        (
          le→leb 9 (length bs) (omega (arith, length-bs)),
          reads_width,
          le→leb w 32 g.narrow,
          le→leb (9 + pack_size w (length values)) (length bs) (omega (arith, length-bs)),
          reads_index,
          reads_crc,
          eq→== (crc32c group) (crc32c group) refl,
          reads_front,
        )
        refl

  pub strip_index-layout :
      strip_index
        (length values)
        (stored ++ (layout m w body ++ le_bytes 4 (crc32c (layout m w body))))
      ≡ ok (layout m w body, stored)
  unfolding group bs
  strip_index-layout = stripped

pub strip_index-encode_group :
    (stored values group : List ℕ)
    → All IsU32 values
    → 0 < length values
    → length values < 2 ^ 32
    → encode_group values ≡ ok group
    → strip_index (length values) (stored ++ (group ++ le_bytes 4 (crc32c group)))
      ≡ ok (group, stored)
strip_index-encode_group stored [] group words some_values small e = absurd (omega arith)
strip_index-encode_group stored (v ∷ vs) group words some_values small e =
    let (m, w, body, e', g) = encode_group-IsGroup v vs words small in
    subst
      (λ t. strip_index (length (v ∷ vs)) (stored ++ (t ++ le_bytes 4 (crc32c t))) ≡ ok (t, stored))
      (ok-injective (sym e' ∙ e)) (strip_index-layout stored (v ∷ vs) body m w g)
