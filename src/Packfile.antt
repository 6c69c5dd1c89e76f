-- ===== src/Packfile.antt =====
-- packfile/packfile.go: the format's constants, the trailer and the errors.
-- Go's `int`, `int64` and `uint32` fields are numbers; a conversion that cuts is written out.
pub mod ContentHash
pub mod Index
pub mod Record
pub mod Decoder
pub mod Writer
pub mod Pipeline
pub mod Reader
pub mod Lookup
pub mod Range
pub mod Scattered
pub mod ReadItem
pub mod EndToEnd
pub mod Tests
use event_analysis.Prelude.{ℕ, ◌+◌, List, Bool, true, false, bit_or}
use event_analysis.Intpack
use event_analysis.Zstd
use event_analysis.Hash.Crc32c.{checksum}

abbrev pub magic : ℕ
magic = 0x534C4348

abbrev pub version : ℕ
version = 1

-- Values per FOR group in the index section.
abbrev pub group_size : ℕ
group_size = 128

abbrev pub trailer_size : ℕ
trailer_size = 64

pub data RecordFormat : Type 0 where
  compressed uncompressed raw : RecordFormat

abbrev pub flag_no_compression : ℕ
flag_no_compression = 1

abbrev pub flag_content_hash : ℕ
flag_content_hash = 2

abbrev pub flag_no_crc : ℕ
flag_no_crc = 4

pub record Trailer : Type 0 where
  pub version : ℕ
  pub record_count : ℕ
  pub total_items : ℕ
  pub items_per_record : ℕ
  pub index_size : ℕ
  pub app_data_size : ℕ
  pub content_hash : List ℕ
  pub index_for_group_size : ℕ
  pub format : RecordFormat
  pub has_content_hash : Bool
  pub checksum : ℕ

-- The sentinel errors, then those that a function builds with `fmt.Errorf` or passes on.
pub data Error : Type 0 where
  corrupt_magic corrupt_version corrupt_checksum corrupt_size : Error
  position_out_of_range content_hash_mismatch : Error
  -- decodeIndex
  index_too_small : ℕ → Error
  implausible_count : ℕ → ℕ → Error
  index_group : ℕ → Intpack.Error → Error
  unconsumed_bytes : ℕ → Error
  final_offset : ℕ → ℕ → Error
  -- encodeIndex
  too_many_records : ℕ → Error
  delta_too_large : ℕ → Error
  intpack : Intpack.Error → Error
  -- doOpen
  unsupported_group_size : ℕ → Error
  unknown_flags : ℕ → Error
  invalid_items_per_record : ℕ → Error
  record_count_mismatch : ℕ → ℕ → Error
  -- Decode
  too_short_for_index : ℕ → Error
  invalid_width : ℕ → Error
  index_exceeds_record : Error
  index_checksum : Error
  too_short_for_crc : ℕ → Error
  payload_checksum : Error
  size_sum : ℕ → ℕ → Error
  -- the writer
  negative_items_per_record : Error
  writer_closed : Error
  too_many_items : ℕ → Error
  block_failed : ℕ → Error → Error
  -- libzstd and the file system
  zstd : Zstd.Error → Error
  write_failed sync_failed close_failed open_failed read_failed : Error

-- `errors.Is(err, ErrCorrupt)`: which errors wrap the sentinel.
pub is_corrupt : Error → Bool
is_corrupt corrupt_magic = true
is_corrupt corrupt_version = true
is_corrupt corrupt_checksum = true
is_corrupt corrupt_size = true
is_corrupt (index_too_small n) = true
is_corrupt (implausible_count n m) = true
is_corrupt (index_group g e) = true
is_corrupt (unconsumed_bytes n) = true
is_corrupt (final_offset n m) = true
is_corrupt (invalid_width n) = true
is_corrupt index_exceeds_record = true
is_corrupt index_checksum = true
is_corrupt payload_checksum = true
is_corrupt (size_sum n m) = true
is_corrupt (block_failed id e) = is_corrupt e
is_corrupt other = false

unfoldable pub crc32c : List ℕ → ℕ
crc32c b = checksum b
