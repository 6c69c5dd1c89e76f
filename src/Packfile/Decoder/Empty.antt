-- ===== src/Packfile/Decoder/Empty.antt =====
-- An uncompressed record of empty items, written by packfile/writer.go and given to Decode.
use event_analysis.Prelude.{ℕ, ◌^◌, ◌<◌, ◌≡◌, refl, sym, ap, ◌∙◌, arith}
use event_analysis.Prelude.{
  List, [], ◌++◌, map, length, All, ok, err, true, false, ltb, Bool-cases, inl, inr, append-nil,
  length-map, ok-injective,
}
use event_analysis.Prelude.Bytes.{le_bytes}
use event_analysis.Zstd
use event_analysis.Intpack.{IsU32}
use event_analysis.Packfile.{uncompressed, crc32c, too_short_for_crc}
use event_analysis.Packfile.Record.{build_index, format_block}
use event_analysis.Packfile.Decoder.{Decoder, items_in_record, strip_index, decode, read_payload}
use event_analysis.Packfile.Decoder.Strip.{strip_index-encode_group}
use event_analysis.Packfile.Decoder.RoundTrip.{build_index-many, build_index-one}
use mathlib.Core.List.{flatten}

read_payload-checksum_only :
    (z : Zstd.Library)
    → read_payload z uncompressed (le_bytes 4 (crc32c [])) ≡ err (too_short_for_crc 4)
unfolding read_payload
read_payload-checksum_only z = refl

module _ (z : Zstd.Library) (rd : Decoder) (record_idx : ℕ) (items : List (List ℕ))
    (for_index block : List ℕ) (format : rd.format ≡ uncompressed)
    (count : items_in_record rd.total_items rd.items_per_record record_idx ≡ ok (length items))
    (some_items : 0 < length items) (small : length items < 2 ^ 32)
    (words : All IsU32 (map length items)) (all_empty : flatten items ≡ [])
    (made_index : build_index rd.items_per_record (map length items) ≡ ok for_index)
    (made_block : format_block z rd.format (flatten items) for_index ≡ ok block) where
  made : block ≡ le_bytes 4 (crc32c []) ++ for_index
  unfolding format_block
  made = ok-injective (
      sym made_block
      ∙ ap (λ f. format_block z f (flatten items) for_index) format
      ∙ ap (λ t. format_block z uncompressed t for_index) all_empty)

  several :
      ltb 1 rd.items_per_record ≡ true → decode z rd block record_idx ≡ err (too_short_for_crc 4)
  unfolding decode
  several many =
      let (group, encoded, tail) =
        build_index-many rd.items_per_record (map length items) for_index many made_index in
      rw
        (
          count,
          many,
          made,
          tail,
          ap (λ n. strip_index n (le_bytes 4 (crc32c []) ++ (group ++ le_bytes 4 (crc32c group))))
                (sym (length-map length items))
              ∙ strip_index-encode_group (le_bytes 4 (crc32c [])) (map length items) group words
                  (omega (arith, length-map length items)) (omega (arith, length-map length items))
                  encoded,
          format,
          read_payload-checksum_only z,
        )
        refl

  single :
      ltb 1 rd.items_per_record ≡ false → decode z rd block record_idx ≡ err (too_short_for_crc 4)
  unfolding decode
  single one =
      rw
        (
          count,
          one,
          made,
          build_index-one rd.items_per_record (map length items) for_index one made_index,
          append-nil (le_bytes 4 (crc32c [])),
          format,
          read_payload-checksum_only z,
        )
        refl

  -- For items that are all empty, at least one, as many as the decoder expects in the record, with the
  -- format uncompressed: decoding the block that the writer assembles from them fails with the error
  -- of a record that is too short for its checksum.
  pub decode-empty_record : decode z rd block record_idx ≡ err (too_short_for_crc 4)
  decode-empty_record = elim (Bool-cases (ltb 1 rd.items_per_record)) [
    | inl many ↦ several many
    | inr one ↦ single one
  ]
