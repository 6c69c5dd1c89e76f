-- ===== src/Packfile/Reader/Fields.antt =====
-- The trailer's fields, written by Finish of packfile/writer.go and read by doOpen.
use event_analysis.Prelude.{ℕ, ◌^◌, ◌<◌, ◌≡◌, refl, sym, ap, ◌∙◌, arith}
use event_analysis.Prelude.{
  List, ◌++◌, length, take, drop, ok, append_assoc, length-append, take-append_left,
  drop-append_left, drop-drop,
}
use event_analysis.Prelude.Bytes.{le_bytes, length-le_bytes}
use event_analysis.Prelude.Slices.{slice, index, get_le, get_le-le_bytes, slice-eq-ok, slice-prefix}
use event_analysis.Packfile.{Error, crc32c, magic, version, group_size}
use event_analysis.Packfile.Writer.{trailer_fields, seal_trailer}
use event_analysis.Packfile.Decoder.Strip.{crc32c-lt}

module _ (flags record_count total items_per_record index_size app_data_size : ℕ) (hash : List ℕ)
    (hash_size : length hash ≡ 32) where
  abbrev fields : List ℕ
  fields = trailer_fields flags record_count total items_per_record index_size app_data_size hash

  abbrev tb : List ℕ
  tb = seal_trailer fields

  pub length-fields : length fields ≡ 60
  unfolding trailer_fields
  length-fields =
      omega
        (arith, hash_size, length-append hash (le_bytes 2 group_size), length-le_bytes 2 group_size)

  pub length-trailer : length tb ≡ 64
  unfolding seal_trailer
  length-trailer = omega (
    arith,
    length-fields,
    length-append fields (le_bytes 4 (crc32c fields)),
    length-le_bytes 4 (crc32c fields),
  )

  pub reads_magic : get_le {E = Error} 4 tb 0 ≡ ok magic
  unfolding seal_trailer trailer_fields
  reads_magic = get_le-le_bytes 4 magic tb 0 (omega arith) (omega (arith, length-trailer)) refl

  pub reads_version : index {E = Error} tb 4 ≡ ok version
  unfolding seal_trailer trailer_fields index
  reads_version = refl

  pub reads_flags : index {E = Error} tb 5 ≡ ok flags
  unfolding seal_trailer trailer_fields index
  reads_flags = refl

  pub reads_record_count : record_count < 2 ^ 32 → get_le {E = Error} 4 tb 6 ≡ ok record_count
  unfolding seal_trailer trailer_fields
  reads_record_count h =
      get_le-le_bytes 4 record_count tb 6 (omega arith) (omega (arith, length-trailer)) refl

  pub reads_total : total < 2 ^ 32 → get_le {E = Error} 4 tb 10 ≡ ok total
  unfolding seal_trailer trailer_fields
  reads_total h = get_le-le_bytes 4 total tb 10 (omega arith) (omega (arith, length-trailer)) refl

  pub reads_items_per_record :
      items_per_record < 2 ^ 32 → get_le {E = Error} 4 tb 14 ≡ ok items_per_record
  unfolding seal_trailer trailer_fields
  reads_items_per_record h =
      get_le-le_bytes 4 items_per_record tb 14 (omega arith) (omega (arith, length-trailer)) refl

  pub reads_index_size : index_size < 2 ^ 32 → get_le {E = Error} 4 tb 18 ≡ ok index_size
  unfolding seal_trailer trailer_fields
  reads_index_size h =
      get_le-le_bytes 4 index_size tb 18 (omega arith) (omega (arith, length-trailer)) refl

  pub reads_app_data_size : app_data_size < 2 ^ 32 → get_le {E = Error} 4 tb 22 ≡ ok app_data_size
  unfolding seal_trailer trailer_fields
  reads_app_data_size h =
      get_le-le_bytes 4 app_data_size tb 22 (omega arith) (omega (arith, length-trailer)) refl

  from_hash : drop 26 tb ≡ hash ++ (le_bytes 2 group_size ++ le_bytes 4 (crc32c fields))
  unfolding seal_trailer trailer_fields
  from_hash = append_assoc hash (le_bytes 2 group_size) (le_bytes 4 (crc32c fields))

  pub reads_hash : slice {E = Error} tb 26 58 ≡ ok hash
  reads_hash =
      slice-eq-ok tb 26 58 (omega arith) (omega (arith, length-trailer))
      ∙ ap ok (
          ap (take 32) from_hash
          ∙ take-append_left 32 hash (le_bytes 2 group_size ++ le_bytes 4 (crc32c fields))
              hash_size)

  pub reads_group_size : get_le {E = Error} 2 tb 58 ≡ ok group_size
  reads_group_size =
      get_le-le_bytes 2 group_size tb 58 (omega arith) (omega (arith, length-trailer)) (
        ap (take 2) (
          sym (drop-drop 26 32 tb)
          ∙ ap (drop 32) from_hash
          ∙ drop-append_left 32 hash (le_bytes 2 group_size ++ le_bytes 4 (crc32c fields))
              hash_size))

  pub reads_checksum : get_le {E = Error} 4 tb 60 ≡ ok (crc32c fields)
  unfolding seal_trailer
  reads_checksum =
      get_le-le_bytes 4 (crc32c fields) tb 60 (crc32c-lt fields) (omega (arith, length-trailer))
        (ap (take 4) (drop-append_left 60 fields (le_bytes 4 (crc32c fields)) length-fields))

  pub reads_fields : slice {E = Error} tb 0 60 ≡ ok fields
  unfolding seal_trailer
  reads_fields =
      slice-prefix tb 60 (omega (arith, length-trailer))
      ∙ ap ok (take-append_left 60 fields (le_bytes 4 (crc32c fields)) length-fields)
