-- ===== src/Packfile/Scattered.antt =====
-- packfile/reader.go, ReadItems: the positions cut into batches, and a record decoded. Positions are
-- natural numbers; the source panics on a negative one as on one that is too large.
pub mod Batches
pub mod Workers
pub mod Round
pub mod Finished
pub mod FirstError
mod Tests
use event_analysis.Prelude.{
  ℕ, zero, suc, ◌+◌, ◌-◌, ◌*◌, ◌/◌, ◌%◌, List, [], ◌∷◌, ◌++◌, length, take, drop, Option, none,
  some, Bool, true, false, ◌&&◌,
}
use Prim.Native.Nat.{max}
use event_analysis.Prelude.{ltb, leb, ◌==◌, if◌then◌else◌, Result, ok, check, ◌>>=◌, ◌>>◌}
use event_analysis.Prelude.Slices.{slice, index}
use event_analysis.Zstd
use event_analysis.Packfile.{Error}
use event_analysis.Packfile.Decoder.{Decoder, decode, item}
use event_analysis.Packfile.Reader.{Reader}
use event_analysis.Packfile.Range.{read_buf_size, get_decoder}

-- The validation's panics: the positions ascend and are below the number of items.
unfoldable pub check_positions : ℕ → List ℕ → Result Error (Unit {0})
check_positions total_items [] = ok tt
check_positions total_items (p ∷ []) = check (ltb p total_items)
check_positions total_items (p ∷ (q ∷ positions)) = do
  check (ltb p total_items)
  check (ltb p q)
  check_positions total_items (q ∷ positions)

-- `ioBatch`
pub record IoBatch : Type 0 where
  pub idx_start : ℕ
  pub idx_end : ℕ
  pub first_record : ℕ
  pub last_record : ℕ

-- The variables of the loop that cuts the positions.
pub record Cutting : Type 0 where
  pub batch_idx_start : ℕ
  pub first_rec : ℕ
  pub last_rec : ℕ
  pub batch_bytes : ℕ

unfoldable pub batch_of : Cutting → ℕ → IoBatch
batch_of s i = record {
  idx_start = s.batch_idx_start;
  idx_end = i;
  first_record = s.first_rec;
  last_record = s.last_rec;
}

unfoldable pub record_bytes : List ℕ → ℕ → Result Error ℕ
record_bytes offsets record_idx = do
  hi ← index offsets (record_idx + 1)
  lo ← index offsets record_idx
  ok (hi - lo)

-- Whether a record joins the batch.
unfoldable pub joins : ℕ → Cutting → ℕ → ℕ → ℕ → Bool
joins max_per_batch s i rec rec_bytes =
    (rec == s.last_rec + 1)
    && (leb (s.batch_bytes + rec_bytes) read_buf_size && ltb (i - s.batch_idx_start) max_per_batch)

unfoldable pub joined : Cutting → ℕ → ℕ → Cutting
joined s rec rec_bytes = record s { last_rec = rec; batch_bytes = s.batch_bytes + rec_bytes }

unfoldable pub fresh : ℕ → ℕ → ℕ → Cutting
fresh i rec rec_bytes = record {
  batch_idx_start = i;
  first_rec = rec;
  last_rec = rec;
  batch_bytes = rec_bytes;
}

-- The loop, from the position with the index `i` on, and the last batch.
unfoldable pub cut_batches : List ℕ → ℕ → ℕ → Cutting → ℕ → List ℕ → Result Error (List IoBatch)
cut_batches offsets k max_per_batch s i [] = ok (batch_of s i ∷ [])
cut_batches offsets k max_per_batch s i (p ∷ positions) =
    let same = cut_batches offsets k max_per_batch s (i + 1) positions in
    if p / k == s.last_rec then same else (do
      rec_bytes ← record_bytes offsets (p / k)
      let more = cut_batches offsets k max_per_batch (joined s (p / k) rec_bytes) (i + 1) positions
      let next = cut_batches offsets k max_per_batch (fresh i (p / k) rec_bytes) (i + 1) positions
      (if joins max_per_batch s i (p / k) rec_bytes
          then more
          else (do rest ← next; ok (batch_of s i ∷ rest))))

-- The batches of the positions, for a reader with this concurrency.
unfoldable pub batches_of : Reader → ℕ → List ℕ → Result Error (List IoBatch)
batches_of r concurrency [] = ok []
batches_of r concurrency (p ∷ positions) = do
  let k = r.items_per_record
  let max_per_batch = max 1 ((length (p ∷ positions) + concurrency - 1) / concurrency)
  rec_bytes ← record_bytes r.offsets (p / k)
  cut_batches r.offsets k max_per_batch (fresh 0 (p / k) rec_bytes) 1 positions

unfoldable pub decode_record : Zstd.Library → Reader → List ℕ → ℕ → ℕ → Result Error Decoder
decode_record z r read_buf read_start rec = do
  rec_off ← index r.offsets rec
  rec_end ← index r.offsets (rec + 1)
  rec_data ← slice read_buf (rec_off - read_start) (rec_end - read_start)
  decode z (get_decoder r) rec_data rec

-- The decoder of a record: the one that holds it already, or a new one.
unfoldable pub decoder_of :
    Zstd.Library → Reader → List ℕ → ℕ → Option (ℕ × Decoder) → ℕ → Result Error Decoder
decoder_of z r read_buf read_start none rec = decode_record z r read_buf read_start rec
decoder_of z r read_buf read_start (some (prev_rec, rd)) rec =
    let decoded = decode_record z r read_buf read_start rec in
    if rec == prev_rec then ok rd else decoded
