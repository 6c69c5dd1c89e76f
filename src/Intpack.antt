-- ===== src/Intpack.antt =====
-- intpack/intpack.go: frame-of-reference groups of uint32 values, packed bit by bit.
-- `int` and `uint64` sizes stay far below their bounds except where `% 2 ^ 64` is written: a group
-- that is encoded is a slice in memory.
pub mod Packing
pub mod Pack
pub mod Unpack
pub mod Width
pub mod Layout
pub mod RoundTrip
pub mod Total
mod Tests
use event_analysis.Prelude.{ℕ, zero, suc, ◌+◌, ◌-◌, ◌*◌, ◌/◌, ◌%◌, ◌^◌, ◌<◌, min, bit_and, bit_or}
use event_analysis.Prelude.{List, [], ◌∷◌, none, some, length, get_elem?, replicate}
use event_analysis.Prelude.{ltb, leb, ◌==◌, if◌then◌else◌}
use event_analysis.Prelude.{Result, ok, panicked, ◌>>=◌, ◌>>◌, guard, check, ◌||◌}
use event_analysis.Prelude.Slices.{slice, index, get_le, put_le}
use Prim.Native.Nat.{max}

-- The errors of `DecodeGroup`, in the order of its checks.
pub data Error : Type 0 where
  bad_count : Error
  buf_short : ℕ → Error
  bad_width : ℕ → Error
  payload_short : ℕ → ℕ → Error

abbrev pub IsU32 : ℕ → Type 0
IsU32 v = v < 2 ^ 32

-- `slices.Min` and `slices.Max` once the first element is taken.
unfoldable pub slices_min : ℕ → List ℕ → ℕ
slices_min m [] = m
slices_min m (v ∷ vs) = slices_min (min m v) vs

unfoldable pub slices_max : ℕ → List ℕ → ℕ
slices_max m [] = m
slices_max m (v ∷ vs) = slices_max (max m v) vs

-- `bits.Len32` is `bit_len 32`: how often the number halves before it is 0.
unfoldable pub bit_len : ℕ → ℕ → ℕ
bit_len zero n = 0
bit_len (suc rounds) n = let rest = bit_len rounds (n / 2) in if n == 0 then 0 else suc rest

abbrev pub sub32 : ℕ → ℕ → ℕ
sub32 a b = (a + 2 ^ 32 - b) % 2 ^ 32

-- The minimum and the width. `slices.Min` panics on an empty slice.
unfoldable pub range_width : List ℕ → Result Error (ℕ × ℕ)
range_width [] = panicked
range_width (v ∷ vs) =
    let min_val = slices_min v vs in
    let max_val = slices_max v vs in
    let width = bit_len 32 (sub32 max_val min_val) in ok (min_val, if width == 0 then 1 else width)

-- `(int(width)*len(values) + 7) / 8`
abbrev pub pack_size : ℕ → ℕ → ℕ
pack_size width n = (width * n + 7) / 8

-- The loop of `packResiduals` from index `j` on.
unfoldable pub pack_loop : ℕ → ℕ → ℕ → List ℕ → List ℕ → Result Error (List ℕ)
pack_loop min_val width j [] buf = ok buf
pack_loop min_val width j (v ∷ vs) buf = do
  let residual = sub32 v min_val
  let bit_pos = j * width % 2 ^ 64
  let byte_pos = bit_pos / 8
  let shift = bit_pos % 8
  existing ← get_le 8 buf byte_pos
  buf' ← put_le 8 buf byte_pos (bit_or existing (residual * 2 ^ shift % 2 ^ 64))
  pack_loop min_val width (j + 1) vs buf'

unfoldable pub pack_residuals : List ℕ → List ℕ → ℕ → ℕ → Result Error (List ℕ)
pack_residuals buf values min_val width = pack_loop min_val width 0 values buf

unfoldable pub encode_group : List ℕ → Result Error (List ℕ)
encode_group values = do
  (min_val, width) ← range_width values
  let size = pack_size width (length values)
  packed ← pack_residuals (replicate (size + 5 + 7) 0) values min_val width
  with_width ← put_le 1 packed size width
  whole ← put_le 4 with_width (size + 1) min_val
  slice whole 0 (size + 5)

-- The fallback loop: `raw |= packed[bytePos+k] << (k*8)` for the bytes that are there.
pub tail_raw : List ℕ → ℕ → ℕ → ℕ → ℕ → ℕ
tail_raw packed byte_pos zero k raw = raw
tail_raw packed byte_pos (suc left) k raw = elim (get_elem? packed (byte_pos + k)) [
  | none ↦ raw
  | some b ↦ tail_raw packed byte_pos left (k + 1) (bit_or raw (b * 2 ^ (k * 8) % 2 ^ 64))
]

-- `int(bytePos) < safeLimit`, with `safeLimit` the length less 7, which may be negative.
pub read_raw : List ℕ → ℕ → Result Error ℕ
read_raw packed byte_pos =
    if ltb (byte_pos + 7) (length packed)
    then get_le 8 packed byte_pos
    else ok (tail_raw packed byte_pos 8 0 0)

-- The loop of `unpackResiduals` with `left` rounds to go, at index `j`.
pub unpack_loop : List ℕ → ℕ → ℕ → ℕ → ℕ → Result Error (List ℕ)
unpack_loop packed w group_min zero j = ok []
unpack_loop packed w group_min (suc left) j = do
  let bit_pos = j * w % 2 ^ 64
  raw ← read_raw packed (bit_pos / 8)
  rest ← unpack_loop packed w group_min left (j + 1)
  ok ((group_min + bit_and (raw / 2 ^ (bit_pos % 8)) (2 ^ w - 1) % 2 ^ 32) % 2 ^ 32 ∷ rest)

pub unpack_residuals : List ℕ → ℕ → ℕ → ℕ → Result Error (List ℕ)
unpack_residuals packed n w group_min =
    if w == 0 then ok (replicate n group_min) else unpack_loop packed w group_min n 0

-- The bits of `int(width)*n + 7`, an int of 64 bits, for an int `n`; from 2^63 on they are negative.
pub int_bits : ℕ → ℕ → ℕ
int_bits width n = (width * n + 7) % 2 ^ 64

-- The most values that `make` can hold on a 64-bit platform, which has at most 2^48 bytes; a greater
-- length panics.
abbrev pub max_values : ℕ
max_values = 2 ^ 46

-- The values and the bytes consumed from the tail, for an int `n` that is not negative: one that is
-- gives the error of 0. `dst` only lends its memory to the values. A negative size passes the test.
pub decode_group : List ℕ → ℕ → Result Error (List ℕ × ℕ)
decode_group buf n = do
  guard (ltb 0 n) bad_count
  guard (leb 5 (length buf)) (buf_short (length buf))
  width ← index buf (length buf - 5)
  guard (leb width 32) (bad_width width)
  group_min ← get_le 4 buf (length buf - 4)
  let bits = int_bits width n
  guard (leb (2 ^ 63) bits || leb (bits / 8 + 5) (length buf))
      (payload_short (length buf) (bits / 8 + 5))
  check (leb n max_values)
  packed ← slice buf (length buf - 5 - bits / 8) (length buf - 5)
  values ← unpack_residuals packed n width group_min
  ok (values, bits / 8 + 5)
