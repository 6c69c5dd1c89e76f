-- ===== src/Packfile/Reader.antt =====
-- packfile/reader.go, doOpen and ReadItem, on the bytes of the file; reads of the file do not fail.
pub mod Tail
pub mod Fields
pub mod Open
use event_analysis.Prelude.{
  ℕ, ◌+◌, ◌-◌, ◌*◌, ◌/◌, ◌%◌, ◌^◌, min, List, [], ◌∷◌, ◌++◌, length, drop, replicate, Bool, true,
  false, not, bit_and,
}
use event_analysis.Prelude.{
  ◌&&◌, ltb, leb, ◌==◌, if◌then◌else◌, Result, ok, err, panicked, guard, ◌>>=◌, ◌>>◌,
}
use event_analysis.Prelude.Int.{ℤ, pos, negsuc}
use event_analysis.Prelude.Slices.{slice, index, get_le}
use event_analysis.Zstd
use event_analysis.Packfile.{
  Error, RecordFormat, compressed, uncompressed, raw, Trailer, crc32c, magic, version, group_size,
  trailer_size, flag_no_compression, flag_content_hash, flag_no_crc, corrupt_magic, corrupt_version,
  corrupt_checksum, corrupt_size, unsupported_group_size, unknown_flags, invalid_items_per_record,
  record_count_mismatch, position_out_of_range,
}
use event_analysis.Packfile.Index.{decode_index}
use event_analysis.Packfile.Decoder.{Decoder, decode, item}

-- `openResult`, with the file's bytes in place of its handle.
pub record Reader : Type 0 where
  pub file : List ℕ
  pub trailer : Trailer
  pub offsets : List ℕ
  pub app_data : List ℕ
  pub total_items : ℕ
  pub items_per_record : ℕ

abbrev pub speculative_read_size : ℕ
speculative_read_size = 256 * 1024

-- The format out of the flags.
pub format_of : ℕ → RecordFormat
format_of flags =
    if bit_and flags flag_no_compression == 0
    then compressed
    else if not (bit_and flags flag_no_crc == 0)
    then raw
    else uncompressed

-- `flags &^ knownFlags`: what is left when the three low bits are cleared.
abbrev pub other_flags : ℕ → ℕ
other_flags flags = flags - bit_and flags 7

-- The index and the application's data: out of the speculative buffer where the tail fits it, else
-- by a second read.
pub read_tail : List ℕ → List ℕ → ℕ → ℕ → ℕ → Result Error (List ℕ × List ℕ)
read_tail file speculative_buf index_base index_size app_data_size =
    if leb (index_size + app_data_size + trailer_size) (length speculative_buf)
    then (do
      let tail_start = length speculative_buf - (index_size + app_data_size + trailer_size)
      index_buf ← slice speculative_buf tail_start (tail_start + index_size)
      app_data ←
          slice speculative_buf (tail_start + index_size) (tail_start + index_size + app_data_size)
      ok (index_buf, app_data))
    else (do
      buf ← slice file index_base (index_base + (index_size + app_data_size))
      index_buf ← slice buf 0 index_size
      app_data ← slice buf index_size (index_size + app_data_size)
      ok (index_buf, app_data))

unfoldable pub expected_records : ℕ → ℕ → ℕ
expected_records total_items items_per_record =
    if total_items == 0 then 0 else (total_items + items_per_record - 1) / items_per_record

-- The number of records that the trailer's counts imply; a setting of 0 implies nothing.
unfoldable pub check_counts : ℕ → ℕ → ℕ → Result Error (Unit {0})
check_counts total_items items_per_record record_count = do
  guard (not ((items_per_record == 0) && ltb 0 record_count))
      (invalid_items_per_record items_per_record)
  (if ltb 0 items_per_record
      then guard (expected_records total_items items_per_record == record_count)
          (record_count_mismatch (expected_records total_items items_per_record) record_count)
      else ok tt)

pub do_open : List ℕ → Result Error Reader
do_open file = do
  guard (leb trailer_size (length file)) corrupt_size
  let speculative_size = min speculative_read_size (length file)
  speculative_buf ← slice file (length file - speculative_size) (length file)
  tb ← slice speculative_buf (length speculative_buf - trailer_size) (length speculative_buf)
  m ← get_le 4 tb 0
  guard (m == magic) corrupt_magic
  v ← index tb 4
  guard (v == version) corrupt_version
  flags ← index tb 5
  record_count ← get_le 4 tb 6
  total_items ← get_le 4 tb 10
  items_per_record ← get_le 4 tb 14
  index_size ← get_le 4 tb 18
  app_data_size ← get_le 4 tb 22
  content_hash ← slice tb 26 58
  index_group_size ← get_le 2 tb 58
  stored_crc ← get_le 4 tb 60
  guard (index_group_size == group_size) (unsupported_group_size index_group_size)
  guard (other_flags flags == 0) (unknown_flags flags)
  let has_content_hash = not (bit_and flags flag_content_hash == 0)
  guard (leb (trailer_size + app_data_size + index_size) (length file)) corrupt_size
  let index_base = length file - trailer_size - app_data_size - index_size
  (index_buf, app_data) ← read_tail file speculative_buf index_base index_size app_data_size
  fields ← slice tb 0 60
  guard (crc32c fields == stored_crc) corrupt_checksum
  offsets ← decode_index index_buf record_count index_size index_base
  check_counts total_items items_per_record record_count
  let used_items_per_record = if items_per_record == 0 then 1 else items_per_record
  ok (record {
    file = file;
    trailer = record {
      version = v;
      record_count = record_count;
      total_items = total_items;
      items_per_record = used_items_per_record;
      index_size = index_size;
      app_data_size = app_data_size;
      content_hash = if has_content_hash then content_hash else replicate 32 0;
      index_for_group_size = index_group_size;
      format = format_of flags;
      has_content_hash = has_content_hash;
      checksum = stored_crc;
    };
    offsets = offsets;
    app_data = app_data;
    total_items = total_items;
    items_per_record = used_items_per_record;
  })

-- The item that `ReadItem` hands to its callback.
unfoldable pub read_item : Zstd.Library → Reader → ℤ → Result Error (List ℕ)
read_item z r (negsuc n) = err position_out_of_range
read_item z r (pos position) = do
  guard (ltb position r.total_items) position_out_of_range
  let record_idx = position / r.items_per_record
  let local_idx = position % r.items_per_record
  start ← index r.offsets record_idx
  end ← index r.offsets (record_idx + 1)
  scratch ← slice r.file start end
  rd ←
      decode z
        (record {
          format = r.trailer.format;
          total_items = r.total_items;
          items_per_record = r.items_per_record;
          decompressed = [];
          sizes = [];
          offsets = [];
        })
        scratch record_idx
  item rd local_idx
