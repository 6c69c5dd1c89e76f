-- ===== src/Packfile/Range.antt =====
-- packfile/reader.go, ReadRange and Verify, for a consumer that does not break off. What is left where
-- it does is a prefix. Reads of the file do not fail, and the context is not cancelled.
pub mod Layout
pub mod Records
pub mod Batches
pub mod Items
pub mod Verify
use event_analysis.Prelude.{
  ℕ, zero, suc, ◌+◌, ◌-◌, ◌*◌, ◌/◌, ◌^◌, min, List, [], ◌∷◌, ◌++◌, length, Bool, true, false, not,
  ◌&&◌,
}
use event_analysis.Prelude.{ltb, leb, if◌then◌else◌, Result, ok, err, panicked, check, ◌>>=◌, ◌>>◌}
use event_analysis.Prelude.Int.{ℤ, pos, negsuc}
use event_analysis.Prelude.Bytes.{same_bytes}
use event_analysis.Prelude.Slices.{slice, index}
use event_analysis.Zstd
use event_analysis.Packfile.{Error, content_hash_mismatch}
use event_analysis.Packfile.ContentHash
use event_analysis.Packfile.ContentHash.{Hasher, new_hasher}
use event_analysis.Packfile.ContentHash.Chunks.{add_all}
use event_analysis.Packfile.Decoder.{Decoder, decode, item}
use event_analysis.Packfile.Reader.{Reader}

abbrev pub read_buf_size : ℕ
read_buf_size = 2 ^ 20

-- The items that are yielded, then the next index, or the error that is yielded last, or a panic.
abbrev pub Yield : Type 0
Yield = List (List ℕ) × Result Error ℕ

unfoldable pub and_yield : Yield → (ℕ → Yield) → Yield
and_yield (items, ok global_idx) rest = let (more, end) = rest global_idx in (items ++ more, end)
and_yield (items, err e) rest = (items, err e)
and_yield (items, panicked) rest = (items, panicked)

unfoldable pub settle : Result Error Yield → Yield
settle (ok y) = y
settle (err e) = ([], err e)
settle panicked = ([], panicked)

-- The decoder as `getDecoder` sets it up.
abbrev pub get_decoder : Reader → Decoder
get_decoder r = record {
  format = r.trailer.format;
  total_items = r.total_items;
  items_per_record = r.items_per_record;
  decompressed = [];
  sizes = [];
  offsets = [];
}

-- `n` items of the decoded record, from the local index `i` on.
unfoldable pub yield_items : Decoder → ℕ → ℕ → ℕ → Yield
yield_items rd i zero global_idx = ([], ok global_idx)
yield_items rd i (suc n) global_idx =
    settle
      (do it ← item rd i; ok (and_yield (it ∷ [], ok (global_idx + 1)) (yield_items rd (i + 1) n)))

-- The closure `yieldRecord`; an index before the record is out of the decoder's range.
unfoldable pub yield_record : Zstd.Library → Reader → ℕ → List ℕ → ℕ → ℕ → Yield
yield_record z r end rec_data rec_idx global_idx = settle (do
  rd ← decode z (get_decoder r) rec_data rec_idx
  let rec_start = rec_idx * r.items_per_record
  check (leb rec_start global_idx)
  let lo = global_idx - rec_start
  let hi = min (length rd.sizes) (end - rec_start)
  ok (yield_items rd lo (hi - lo) global_idx))

-- The loop that finds where a batch ends; with `last_record + 1 - batch_end` as fuel it does.
unfoldable pub batch_end_of : List ℕ → ℕ → ℕ → ℕ → ℕ → Result Error ℕ
batch_end_of offsets last_record batch_start zero batch_end = ok batch_end
batch_end_of offsets last_record batch_start (suc fuel) batch_end =
    if leb batch_end last_record
    then (do
      hi ← index offsets (batch_end + 1)
      lo ← index offsets batch_start
      let rest = batch_end_of offsets last_record batch_start fuel (batch_end + 1)
      (if leb (hi - lo) read_buf_size then rest else ok batch_end))
    else ok batch_end

-- `n` records of a batch whose bytes start at the offset `base`.
unfoldable pub yield_batch : Zstd.Library → Reader → ℕ → List ℕ → ℕ → ℕ → ℕ → ℕ → Yield
yield_batch z r end read_buf base zero j global_idx = ([], ok global_idx)
yield_batch z r end read_buf base (suc n) j global_idx = settle (do
  lo ← index r.offsets j
  hi ← index r.offsets (j + 1)
  rec_data ← slice read_buf (lo - base) (hi - base)
  ok (
      and_yield (yield_record z r end rec_data j global_idx)
        (yield_batch z r end read_buf base n (j + 1))))

-- One batch, and what follows it: a record larger than the buffer is a batch of its own.
unfoldable pub batch_step :
    Zstd.Library → Reader → ℕ → ℕ → (ℕ → ℕ → Yield) → ℕ → ℕ → Result Error Yield
batch_step z r end last_record rest batch_start global_idx = do
  batch_end ←
      batch_end_of r.offsets last_record batch_start (last_record - batch_start) (batch_start + 1)
  base ← index r.offsets batch_start
  next ← index r.offsets (batch_start + 1)
  (if ltb read_buf_size (next - base)
      then (do
        one_off ← slice r.file base next
        ok (
            and_yield (yield_record z r end one_off batch_start global_idx)
              (rest (batch_start + 1))))
      else (do
        limit ← index r.offsets batch_end
        read_buf ← slice r.file base limit
        ok (
            and_yield
              (yield_batch z r end read_buf base (batch_end - batch_start) batch_start global_idx)
              (rest batch_end))))

-- The loop over the batches; each takes a record at least.
unfoldable pub yield_batches : Zstd.Library → Reader → ℕ → ℕ → ℕ → ℕ → ℕ → Yield
yield_batches z r end last_record zero batch_start global_idx = ([], ok global_idx)
yield_batches z r end last_record (suc fuel) batch_start global_idx =
    if leb batch_start last_record
    then settle (
        batch_step z r end last_record (yield_batches z r end last_record fuel) batch_start
          global_idx)
    else ([], ok global_idx)

-- `ReadRange` of `count` items from `start` on.
unfoldable pub read_range : Zstd.Library → Reader → ℤ → ℤ → Yield
read_range z r start (pos zero) = ([], ok 0)
read_range z r start (negsuc n) = ([], panicked)
read_range z r (negsuc n) (pos (suc m)) = ([], panicked)
read_range z r (pos start) (pos (suc m)) =
    if leb start r.total_items && leb (m + 1) (r.total_items - start)
    then (let first_record = start / r.items_per_record in
        let last_record = (start + m) / r.items_per_record in
        yield_batches z r (start + (m + 1)) last_record (last_record + 1 - first_record)
          first_record start)
    else ([], panicked)

-- The loop over the items, then its end.
unfoldable pub hash_range : Hasher → Yield → Result Error (List ℕ)
hash_range h (items, end) = do last ← end; ok (ContentHash.sum (add_all h items))

-- `Verify`: the hash of all items against the trailer's.
unfoldable pub verify : Zstd.Library → Reader → Result Error (Unit {0})
verify z r = if not r.trailer.has_content_hash then ok tt else (do
  hasher ← new_hasher r.items_per_record
  computed ← hash_range hasher (read_range z r (pos 0) (pos r.total_items))
  (if same_bytes computed r.trailer.content_hash then ok tt else err content_hash_mismatch))
