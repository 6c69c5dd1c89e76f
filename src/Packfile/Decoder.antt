-- ===== src/Packfile/Decoder.antt =====
-- packfile/decoder.go: the decoder of one record. A decoder that failed is not used again before the
-- next `Decode`, so its half-filled buffers are left out; pooling only lends memory.
pub mod Items
pub mod Strip
pub mod RoundTrip
pub mod Empty
use event_analysis.Prelude.{
  ℕ, zero, suc, ◌+◌, ◌-◌, ◌*◌, ◌/◌, ◌%◌, ◌^◌, ◌<◌, List, [], ◌∷◌, length, true,
}
use event_analysis.Prelude.{
  ltb, leb, ◌==◌, if◌then◌else◌, Result, ok, panicked, guard, check, map_err, ◌>>=◌, ◌>>◌,
}
use event_analysis.Prelude.Slices.{slice, index, get_le}
use event_analysis.Intpack.{decode_group, pack_size}
use event_analysis.Zstd
use event_analysis.Packfile.{
  Error, RecordFormat, compressed, uncompressed, raw, crc32c, intpack, zstd, too_short_for_index,
  invalid_width, index_exceeds_record, index_checksum, too_short_for_crc, payload_checksum,
  size_sum,
}

pub record Decoder : Type 0 where
  pub format : RecordFormat
  pub total_items : ℕ
  pub items_per_record : ℕ
  pub decompressed : List ℕ
  pub sizes : List ℕ
  pub offsets : List ℕ

-- The number of records that hold `total` items.
abbrev pub records_for : ℕ → ℕ → ℕ
records_for total k = (total + k - 1) / k

unfoldable pub items_in_record : ℕ → ℕ → ℕ → Result Error ℕ
items_in_record total_items items_per_record record_idx =
    if total_items == 0
    then ok 0
    else if items_per_record == 0
    then panicked
    else if leb (records_for total_items items_per_record) record_idx
    then panicked
    else if ltb record_idx (records_for total_items items_per_record - 1)
    then ok items_per_record
    else if total_items % items_per_record == 0
    then ok items_per_record
    else ok (total_items % items_per_record)

-- The FOR index off the tail of a record: its bytes without the checksum, and what is before it.
pub strip_index : ℕ → List ℕ → Result Error (List ℕ × List ℕ)
strip_index n bs = do
  guard (leb 9 (length bs)) (too_short_for_index (length bs))
  width ← index bs (length bs - 9)
  guard (leb width 32) (invalid_width width)
  guard (leb (9 + pack_size width n) (length bs)) index_exceeds_record
  let for_start = length bs - 9 - pack_size width n
  for_index ← slice bs for_start (length bs - 4)
  stored_crc ← get_le 4 bs (length bs - 4)
  guard (stored_crc == crc32c for_index) index_checksum
  front ← slice bs 0 for_start
  ok (for_index, front)

-- The payload out of what the format stored.
unfoldable pub read_payload : Zstd.Library → RecordFormat → List ℕ → Result Error (List ℕ)
read_payload z compressed bs = map_err zstd (Zstd.decode z true bs)
read_payload z raw bs = ok bs
read_payload z uncompressed bs = do
  guard (leb 5 (length bs)) (too_short_for_crc (length bs))
  stored ← get_le 4 bs (length bs - 4)
  payload ← slice bs 0 (length bs - 4)
  guard (stored == crc32c payload) payload_checksum
  ok payload

abbrev pub sum : List ℕ → ℕ
sum [] = 0
sum (n ∷ ns) = n + sum ns

-- The sizes of the items: out of the index, checked against the payload, or the payload's own.
unfoldable pub read_sizes : ℕ → ℕ → List ℕ → List ℕ → Result Error (List ℕ)
read_sizes items_per_record n for_index payload =
    if ltb 1 items_per_record
    then (do
      (sizes, used) ← map_err intpack (decode_group for_index n)
      guard (sum sizes == length payload) (size_sum (sum sizes) (length payload))
      ok sizes)
    else ok (length payload % 2 ^ 32 ∷ [])

-- The offset of each item and the end.
unfoldable pub prefix_sums : ℕ → List ℕ → List ℕ
prefix_sums offset [] = offset ∷ []
prefix_sums offset (n ∷ ns) = offset ∷ prefix_sums (offset + n) ns

unfoldable pub decode : Zstd.Library → Decoder → List ℕ → ℕ → Result Error Decoder
decode z rd bs record_idx = do
  n ← items_in_record rd.total_items rd.items_per_record record_idx
  (for_index, stored) ← (if ltb 1 rd.items_per_record then strip_index n bs else ok ([], bs))
  payload ← read_payload z rd.format stored
  sizes ← read_sizes rd.items_per_record n for_index payload
  check (leb (length sizes) n)
  ok (record rd { decompressed = payload; sizes = sizes; offsets = prefix_sums 0 sizes })

-- It panics where the item is not there.
unfoldable pub item : Decoder → ℕ → Result Error (List ℕ)
item rd i = do
  check (ltb i (length rd.sizes))
  lo ← index rd.offsets i
  hi ← index rd.offsets (i + 1)
  slice rd.decompressed lo hi
