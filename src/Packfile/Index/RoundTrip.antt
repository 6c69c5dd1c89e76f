-- ===== src/Packfile/Index/RoundTrip.antt =====
-- `decodeIndex` after `encodeIndex`.
use event_analysis.Prelude.{ℕ, suc, ◌+◌, ◌-◌, ◌*◌, ◌/◌, ◌^◌, ◌≤◌, ◌<◌, ◌≡◌, refl, sym, ap, ◌∙◌}
use event_analysis.Prelude.{
  List, [], ◌∷◌, ◌++◌, length, arith, ok, take_all, le→leb, append-nil, length-append,
  take-append_left, eq→==,
}
use event_analysis.Prelude.Bytes.{le_bytes, length-le_bytes, le_num-le_bytes}
use event_analysis.Prelude.Slices.{slice, get_le, slice-prefix, get_le-append}
use event_analysis.Hash.Crc32c.{checksum-lt}
use event_analysis.Packfile.{Error, crc32c}
use event_analysis.Packfile.Index.{
  encode_groups, encode_index, decode_groups, offsets_from, decode_index,
}
use event_analysis.Packfile.Index.Deltas.{
  diffs, Ascends, last_or, diffs-IsU32, length-diffs, offsets_from-diffs,
}
use event_analysis.Packfile.Index.Groups.{
  Encoded, none_yet, Encoded_long, decode_groups-Encoded, encode_groups-Encoded,
}

module _ (offsets : List ℕ) (up : Ascends (0 ∷ offsets)) (small : length offsets < 2 ^ 31) where
  abbrev n : ℕ
  n = length offsets

  abbrev all : List ℕ
  all = diffs (0 ∷ offsets)

  length-all : length all ≡ n
  length-all = length-diffs 0 offsets

  encoded :
      (payload : List ℕ) × (encode_groups n (0 ∷ offsets) (length all) 0 [] ≡ ok payload)
      × Encoded all ((length all + 127) / 128) payload
  encoded =
      encode_groups-Encoded (0 ∷ offsets) up (omega (arith, length-all)) n 0 []
        (omega (arith, length-all)) (omega arith) none_yet

  pub payload : List ℕ
  payload = encoded.0

  made : Encoded all ((length all + 127) / 128) payload
  unfolding payload
  made = encoded.2

  pub index : List ℕ
  index = payload ++ le_bytes 4 (crc32c payload)

  pub length-index : length index ≡ length payload + 4
  unfolding index
  length-index = length-append payload (le_bytes 4 (crc32c payload))

  pub encode_index_lem : encode_index (0 ∷ offsets) ≡ ok index
  unfolding encode_index index payload
  encode_index_lem = rw (count, le→leb n (2 ^ 32 - 1) (omega arith), runs) refl
    where
      count : suc n - 1 ≡ n
      count = omega arith

      runs : encode_groups n (0 ∷ offsets) n 0 [] ≡ ok encoded.0
      runs = ap (λ k. encode_groups n (0 ∷ offsets) k 0 []) (sym length-all) ∙ encoded.1

  pub index_long : (n + 127) / 128 * 6 ≤ length payload
  index_long = rw (← length-all) (Encoded_long all (diffs-IsU32 (0 ∷ offsets) up) made)

  abbrev pos : ℕ
  pos = length index - 4

  reads_crc : get_le {E = Error} 4 index pos ≡ ok (crc32c payload)
  unfolding index crc32c
  reads_crc =
      get_le-append 4 payload (le_bytes 4 (crc32c payload)) [] pos (omega (arith, length-index))
        (length-le_bytes 4 (crc32c payload))
      ∙ ap ok (le_num-le_bytes 4 (crc32c payload) (checksum-lt payload))

  reads_payload : slice {E = Error} index 0 pos ≡ ok payload
  unfolding index
  reads_payload =
      slice-prefix index pos (omega (arith, length-index))
      ∙ ap ok
          (take-append_left pos payload (le_bytes 4 (crc32c payload)) (omega (arith, length-index)))

  reads_groups : decode_groups index n ((n + 127) / 128) ((n + 127) / 128) pos [] ≡ ok (all, 0)
  unfolding index
  reads_groups =
      ap (λ k. decode_groups index k ((k + 127) / 128) ((k + 127) / 128) pos []) (sym length-all)
      ∙ ap
          (λ k.
            decode_groups index (length all) ((length all + 127) / 128) ((length all + 127) / 128) k
              [])
          end
      ∙ decode_groups-Encoded all (le_bytes 4 (crc32c payload)) [] (diffs-IsU32 (0 ∷ offsets) up)
          made
      ∙ ap (λ t. ok (t, 0))
          (append-nil _ ∙ take_all ((length all + 127) / 128 * 128) all (omega arith))
    where
      end : pos ≡ length payload
      end = omega (arith, length-index)

  pub decode_index_lem : decode_index index n (length index) (last_or 0 offsets) ≡ ok (0 ∷ offsets)
  unfolding decode_index
  decode_index_lem =
      rw
        (
          le→leb 4 (length index) (omega (arith, length-index)),
          le→leb n (pos / 6 * 128) (omega (arith, length-index, index_long)),
          reads_crc,
          reads_payload,
          eq→== (crc32c payload) (crc32c payload) refl,
          reads_groups,
          eq→== (offsets_from 0 all).1 (last_or 0 offsets) (offsets_from-diffs 0 offsets up).1,
        )
        (ap ok (offsets_from-diffs 0 offsets up).0)

-- For fewer than 2^31 offsets that start behind 0 and grow, each by less than 2^32: `encodeIndex` of 0
-- and the offsets returns bytes, and `decodeIndex` of these with the last offset as the index's base
-- returns 0 and the offsets.
pub decode_index-encode_index :
    (offsets : List ℕ)
    → Ascends (0 ∷ offsets)
    → length offsets < 2 ^ 31
    → (bytes : List ℕ) × (encode_index (0 ∷ offsets) ≡ ok bytes)
      × (decode_index bytes (length offsets) (length bytes) (last_or 0 offsets) ≡ ok (0 ∷ offsets))
decode_index-encode_index offsets up small =
    (index offsets up small, encode_index_lem offsets up small, decode_index_lem offsets up small)
