-- ===== src/Packfile/Index.antt =====
-- packfile/index.go: the offset index, groups of 128 deltas behind one checksum.
-- The int64 sums of at most 2 ^ 31 uint32 deltas cannot overflow; larger counts are not considered.
pub mod Deltas
pub mod Groups
pub mod Total
pub mod RoundTrip
use event_analysis.Prelude.{ℕ, zero, suc, ◌+◌, ◌-◌, ◌*◌, ◌/◌, ◌%◌, ◌^◌, ◌≤◌, ◌<◌, min}
use event_analysis.Prelude.{
  List, [], ◌∷◌, ◌++◌, length, take, drop, Bool, not, ◌&&◌, ◌==◌, leb, ltb, if◌then◌else◌,
}
use event_analysis.Prelude.{Result, ok, err, panicked, guard, map_err, ◌>>=◌, ◌>>◌}
use event_analysis.Prelude.Bytes.{le_bytes}
use event_analysis.Prelude.Slices.{slice, get_le}
use event_analysis.Intpack.{encode_group, decode_group}
use event_analysis.Packfile.{
  Error, crc32c, group_size, index_too_small, implausible_count, index_group, unconsumed_bytes,
  final_offset, too_many_records, delta_too_large, intpack, corrupt_checksum,
}

-- The deltas of consecutive offsets, each of which has to fit a uint32.
unfoldable pub deltas_of : List ℕ → Result Error (List ℕ)
deltas_of [] = ok []
deltas_of (x ∷ []) = ok []
deltas_of (x ∷ (y ∷ offsets)) = do
  guard (leb (y - x) (2 ^ 32 - 1)) (delta_too_large (y - x))
  rest ← deltas_of (y ∷ offsets)
  ok ((y - x) ∷ rest)

-- The loop over the groups from group `g` on, behind the bytes of those before. It runs at most
-- `record_count` rounds; out of fuel it counts as a panic.
unfoldable pub encode_groups : ℕ → List ℕ → ℕ → ℕ → List ℕ → Result Error (List ℕ)
encode_groups zero offsets record_count g buf =
    if ltb (g * 128) record_count then panicked else ok buf
encode_groups (suc fuel) offsets record_count g buf =
    if ltb (g * 128) record_count
    then (do
      let base = g * 128
      let end = min (base + 128) record_count
      deltas ← deltas_of (take (end - base + 1) (drop base offsets))
      group ← map_err intpack (encode_group deltas)
      encode_groups fuel offsets record_count (g + 1) (buf ++ group))
    else ok buf

unfoldable pub encode_index : List ℕ → Result Error (List ℕ)
encode_index offsets = do
  let record_count = length offsets - 1
  guard (leb record_count (2 ^ 32 - 1)) (too_many_records record_count)
  payload ← encode_groups record_count offsets record_count 0 []
  ok (payload ++ le_bytes 4 (crc32c payload))

-- The values of group `g`: the last group may be short.
pub group_limit : ℕ → ℕ → ℕ → ℕ
group_limit record_count group_count g =
    if (g + 1 == group_count) && not (record_count % 128 == 0) then record_count % 128 else 128

-- The backward loop with `left` groups to go: the deltas, and what is left of the window.
pub decode_groups : List ℕ → ℕ → ℕ → ℕ → ℕ → List ℕ → Result Error (List ℕ × ℕ)
decode_groups buf record_count group_count zero pos deltas = ok (deltas, pos)
decode_groups buf record_count group_count (suc g) pos deltas = do
  window ← slice buf 0 pos
  (values, consumed) ←
      map_err (index_group g) (decode_group window (group_limit record_count group_count g))
  decode_groups buf record_count group_count g (pos - consumed) (values ++ deltas)

-- The running sums: the offset of each record, and the end.
pub offsets_from : ℕ → List ℕ → List ℕ × ℕ
offsets_from offset [] = ([], offset)
offsets_from offset (d ∷ deltas) =
    let (rest, end) = offsets_from (offset + d) deltas in (offset ∷ rest, end)

pub decode_index : List ℕ → ℕ → ℕ → ℕ → Result Error (List ℕ)
decode_index buf record_count index_size index_base = do
  guard (leb 4 index_size) (index_too_small index_size)
  let max_records = (index_size - 4) / 6 * 128
  guard (leb record_count max_records) (implausible_count record_count index_size)
  let payload_len = index_size - 4
  stored_crc ← get_le 4 buf payload_len
  payload ← slice buf 0 payload_len
  guard (stored_crc == crc32c payload) corrupt_checksum
  let group_count = (record_count + 127) / 128
  (deltas, pos) ← decode_groups buf record_count group_count group_count payload_len []
  guard (pos == 0) (unconsumed_bytes pos)
  let (starts, end) = offsets_from 0 deltas
  guard (end == index_base) (final_offset end index_base)
  ok (starts ++ (index_base ∷ []))
