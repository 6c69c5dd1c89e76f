-- ===== src/Packfile/Reader/Open.antt =====
-- doOpen of packfile/reader.go on a file with the parts that Finish writes.
use event_analysis.Prelude.{ℕ, ◌+◌, ◌-◌, ◌^◌, ◌<◌, min, ◌≡◌, refl, ap, ◌∙◌, arith}
use event_analysis.Prelude.{
  List, ◌++◌, length, drop, replicate, Bool, true, false, not, ok, ◌==◌, if◌then◌else◌, le→leb,
  eq→==, bit_and,
}
use event_analysis.Prelude.Slices.{slice, slice-suffix}
use event_analysis.Packfile.{
  Error, RecordFormat, compressed, uncompressed, raw, crc32c, trailer_size, flag_content_hash,
  version, group_size,
}
use event_analysis.Packfile.Index.{decode_index}
use event_analysis.Packfile.Writer.{
  flags_of, set_flag, is_raw, is_uncompressed, trailer_fields, seal_trailer,
}
use event_analysis.Packfile.Reader.{
  Reader, format_of, other_flags, check_counts, do_open, speculative_read_size,
}
use event_analysis.Packfile.Reader.Tail.{ends_in_trailer, length-file, read_tail_lem}
use event_analysis.Packfile.Reader.Fields.{
  length-trailer, reads_magic, reads_version, reads_flags, reads_record_count, reads_total,
  reads_items_per_record, reads_index_size, reads_app_data_size, reads_hash, reads_group_size,
  reads_checksum, reads_fields,
}

-- The flags that `Finish` writes say what `doOpen` reads out of them.
pub format_of-flags_of :
    (format : RecordFormat) (content_hash : Bool)
    → format_of (flags_of format content_hash) ≡ format
unfolding format_of flags_of set_flag is_raw is_uncompressed
format_of-flags_of compressed false = refl
format_of-flags_of compressed true = refl
format_of-flags_of uncompressed false = refl
format_of-flags_of uncompressed true = refl
format_of-flags_of raw false = refl
format_of-flags_of raw true = refl

pub flags_of-known :
    (format : RecordFormat) (content_hash : Bool)
    → (other_flags (flags_of format content_hash) ≡ 0)
      × (not (bit_and (flags_of format content_hash) flag_content_hash == 0) ≡ content_hash)
unfolding flags_of set_flag is_raw is_uncompressed
flags_of-known compressed false = (refl, refl)
flags_of-known compressed true = (refl, refl)
flags_of-known uncompressed false = (refl, refl)
flags_of-known uncompressed true = (refl, refl)
flags_of-known raw false = (refl, refl)
flags_of-known raw true = (refl, refl)

module _ (front index_bytes app_data hash offsets : List ℕ) (format : RecordFormat)
    (content_hash : Bool) (record_count total items_per_record : ℕ) (hash_size : length hash ≡ 32)
    (count_small : record_count < 2 ^ 32) (total_small : total < 2 ^ 32)
    (setting_small : items_per_record < 2 ^ 32) (index_small : length index_bytes < 2 ^ 32)
    (app_small : length app_data < 2 ^ 32)
    (indexed : decode_index index_bytes record_count (length index_bytes) (length front)
      ≡ ok offsets)
    (counted : check_counts total items_per_record record_count ≡ ok tt) where
  abbrev flags : ℕ
  flags = flags_of format content_hash

  abbrev fields : List ℕ
  fields =
      trailer_fields flags record_count total items_per_record (length index_bytes)
        (length app_data) hash

  abbrev trailer : List ℕ
  trailer = seal_trailer fields

  abbrev file : List ℕ
  file = front ++ (index_bytes ++ (app_data ++ trailer))

  abbrev setting : ℕ
  setting = if items_per_record == 0 then 1 else items_per_record

  -- What the reader then holds.
  abbrev pub opened : Reader
  opened = record {
    file = file;
    trailer = record {
      version = version;
      record_count = record_count;
      total_items = total;
      items_per_record = setting;
      index_size = length index_bytes;
      app_data_size = length app_data;
      content_hash = if content_hash then hash else replicate 32 0;
      index_for_group_size = group_size;
      format = format;
      has_content_hash = content_hash;
      checksum = crc32c fields;
    };
    offsets = offsets;
    app_data = app_data;
    total_items = total;
    items_per_record = setting;
  }

  sealed : length trailer ≡ 64
  sealed =
      length-trailer flags record_count total items_per_record (length index_bytes)
        (length app_data) hash hash_size

  abbrev size : ℕ
  size = length file

  abbrev start : ℕ
  start = size - min speculative_read_size size

  speculative : slice {E = Error} file start size ≡ ok (drop start file)
  speculative = slice-suffix file start (omega arith)

  ends :
      slice {E = Error}
        (drop start file)
        (length (drop start file) - trailer_size)
        (length (drop start file))
      ≡ ok trailer
  ends =
      slice-suffix (drop start file) (length (drop start file) - trailer_size) (omega arith)
      ∙ ap ok (
          ends_in_trailer front index_bytes app_data trailer sealed start
            (omega (arith, length-file front index_bytes app_data trailer sealed)))

  base : size - trailer_size - length app_data - length index_bytes ≡ length front
  base = omega (arith, length-file front index_bytes app_data trailer sealed)

  -- A file of these parts opens, and the reader holds what they say.
  pub do_open-parts : do_open file ≡ ok opened
  unfolding do_open
  do_open-parts =
      rw
        (
          le→leb trailer_size size
              (omega (arith, length-file front index_bytes app_data trailer sealed)),
          speculative,
          ends,
          reads_magic flags record_count total items_per_record (length index_bytes)
              (length app_data) hash hash_size,
          reads_version flags record_count total items_per_record (length index_bytes)
              (length app_data) hash hash_size,
          reads_flags flags record_count total items_per_record (length index_bytes)
              (length app_data) hash hash_size,
          reads_record_count flags record_count total items_per_record (length index_bytes)
              (length app_data) hash hash_size count_small,
          reads_total flags record_count total items_per_record (length index_bytes)
              (length app_data) hash hash_size total_small,
          reads_items_per_record flags record_count total items_per_record (length index_bytes)
              (length app_data) hash hash_size setting_small,
          reads_index_size flags record_count total items_per_record (length index_bytes)
              (length app_data) hash hash_size index_small,
          reads_app_data_size flags record_count total items_per_record (length index_bytes)
              (length app_data) hash hash_size app_small,
          reads_hash flags record_count total items_per_record (length index_bytes)
              (length app_data) hash hash_size,
          reads_group_size flags record_count total items_per_record (length index_bytes)
              (length app_data) hash hash_size,
          reads_checksum flags record_count total items_per_record (length index_bytes)
              (length app_data) hash hash_size,
          (flags_of-known format content_hash).0,
          (flags_of-known format content_hash).1,
          le→leb (trailer_size + length app_data + length index_bytes) size
              (omega (arith, length-file front index_bytes app_data trailer sealed)),
          base,
          read_tail_lem front index_bytes app_data trailer sealed start (omega arith),
          reads_fields flags record_count total items_per_record (length index_bytes)
              (length app_data) hash hash_size,
          eq→== (crc32c fields) (crc32c fields) refl,
          indexed,
          counted,
          format_of-flags_of format content_hash,
        )
        refl
