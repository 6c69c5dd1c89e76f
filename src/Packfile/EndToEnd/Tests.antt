-- ===== src/Packfile/EndToEnd/Tests.antt =====
-- A packfile of three items in records of two, read back.
use event_analysis.Prelude.{ℕ, ◌≡◌, ◌≢◌, refl, arith}
use event_analysis.Prelude.{List, [], ◌∷◌, ◌++◌, length, Option, none, ok, err, true, sym, ap}
use event_analysis.Prelude.Int.{pos}
use event_analysis.Packfile.{content_hash_mismatch}
use event_analysis.Packfile.Writer.{Writer}
use event_analysis.Packfile.Writer.Finish.{rest}
use event_analysis.Packfile.ContentHash.Chunks.{chunked_hash}
use event_analysis.Hash.Sha256.{sum256, length-sum256}
use event_analysis.Packfile.Decoder.RoundTrip.{IsReadable}
use event_analysis.Packfile.Reader.{Reader, do_open}
use event_analysis.Packfile.Range.{read_range, verify}
use event_analysis.Packfile.Range.Layout.{IsLaid}
use event_analysis.Packfile.Range.Verify.{verify_mismatch}
use event_analysis.Packfile.Scattered.{IoBatch, check_positions, batches_of}
use event_analysis.Packfile.Scattered.Workers.{Reading, Reach, start, all_idle, IsFinished}
use event_analysis.Packfile.Scattered.Round.{calls_of, batches_lem}
use event_analysis.Packfile.Scattered.Finished.{reach-calls_of, reach-IsFinished}
use mathlib.Core.List.{Perm}
use event_analysis.Packfile.EndToEnd.{write_packfile}
use event_analysis.Packfile.EndToEnd.Ranges.{laid, read_range-write_packfile, verify-write_packfile}
use event_analysis.Packfile.Tests.{
  storing, storing-IsLawful, pairs, two_items, one_item, two_block, one_block, offset_index,
  two_IsBlock, one_IsBlock, offset_index_made,
}
use mathlib.Core.List.{flatten}

-- Two items across the records' border.
read_range-write_packfile_example :
    (w : Writer) × (r : Reader) × (write_packfile storing pairs (two_items ++ one_item) (9 ∷ [])
      ≡ ok w)
    × (do_open w.file.content ≡ ok r)
    × ((g : ℕ) × (read_range storing r (pos 1) (pos 2) ≡ ((2 ∷ 3 ∷ []) ∷ ((4 ∷ []) ∷ []), ok g)))
unfolding flatten IsReadable
read_range-write_packfile_example =
    read_range-write_packfile storing storing-IsLawful pairs 2 ((two_items, two_block) ∷ [])
      ((one_item, one_block) ∷ []) one_item (9 ∷ []) offset_index refl (omega arith) (omega arith)
      ((refl, (omega arith, (omega arith, tt)), two_IsBlock), tt) (omega arith, tt) (omega arith)
      (rest (4 ∷ []) [] one_block one_IsBlock) (omega arith) (omega arith)
      (omega arith, (omega arith, tt)) (tt, (tt, tt)) (omega arith) offset_index_made (omega arith)
      1 2 (omega arith)

verify-write_packfile_example :
    (w : Writer) × (r : Reader) × (write_packfile storing pairs (two_items ++ one_item) (9 ∷ [])
      ≡ ok w)
    × (do_open w.file.content ≡ ok r)
    × (r.trailer.has_content_hash ≡ true)
    × (r.trailer.content_hash ≡ chunked_hash (two_items ∷ []) one_item)
    × (verify storing r ≡ ok tt)
unfolding flatten IsReadable
verify-write_packfile_example =
    verify-write_packfile storing storing-IsLawful pairs 2 ((two_items, two_block) ∷ [])
      ((one_item, one_block) ∷ []) one_item (9 ∷ []) offset_index refl (omega arith) (omega arith)
      ((refl, (omega arith, (omega arith, tt)), two_IsBlock), tt) (omega arith, tt) (omega arith)
      (rest (4 ∷ []) [] one_block one_IsBlock) (omega arith) (omega arith)
      (omega arith, (omega arith, tt)) (tt, (tt, tt)) (omega arith) offset_index_made (omega arith)

sum256-nonempty : (bs : List ℕ) → [] ≢ sum256 bs
sum256-nonempty bs e = omega (arith, ap length e, length-sum256 bs)

abbrev no_hash : Reader → Reader
no_hash r = record r { trailer = record r.trailer { content_hash = [] } }

-- The same packfile with another hash in its trailer.
verify_mismatch_example : (r : Reader) × (verify storing r ≡ err content_hash_mismatch)
unfolding flatten IsReadable chunked_hash
verify_mismatch_example =
    let (w, r, wrote, opens, v, same_k, same_hash, digest) =
      laid storing storing-IsLawful pairs 2 ((two_items, two_block) ∷ [])
        ((one_item, one_block) ∷ []) one_item (9 ∷ []) offset_index refl (omega arith) (omega arith)
        ((refl, (omega arith, (omega arith, tt)), two_IsBlock), tt) (omega arith, tt) (omega arith)
        (rest (4 ∷ []) [] one_block one_IsBlock) (omega arith) (omega arith)
        (omega arith, (omega arith, tt)) (tt, (tt, tt)) (omega arith) offset_index_made
        (omega arith) in
    let v' : IsLaid storing (no_hash r) (two_items ++ one_item)
        ((two_items, two_block) ∷ ((one_item, one_block) ∷ [])) =
      record {
        behind = v.behind;
        content = v.content;
        offsets = v.offsets;
        good = v.good;
        total = v.total;
        some_room = v.some_room;
        cut = v.cut;
      } in
    (
      no_hash r,
      verify_mismatch storing storing-IsLawful (no_hash r) (two_items ∷ []) one_item
          ((two_items, two_block) ∷ ((one_item, one_block) ∷ [])) v' (sym same_k, tt)
          (omega (arith, same_k)) same_hash (sum256-nonempty _),
    )

abbrev two_positions : List ℕ
two_positions = 0 ∷ (2 ∷ [])

abbrev willing : ℕ → List ℕ → Option ℕ
willing idx it = none

-- The packfile, and the batches of two positions in different records for two workers.
two_batches :
    (r : Reader) × IsLaid storing r
      (two_items ++ one_item)
      ((two_items, two_block) ∷ ((one_item, one_block) ∷ []))
    × (check_positions r.total_items two_positions ≡ ok tt)
    × (batches : List IoBatch) × (batches_of r 2 two_positions ≡ ok batches)
unfolding flatten IsReadable check_positions
two_batches =
    let (w, r, wrote, opens, v, same_k, same_hash, digest) =
      laid storing storing-IsLawful pairs 2 ((two_items, two_block) ∷ [])
        ((one_item, one_block) ∷ []) one_item (9 ∷ []) offset_index refl (omega arith) (omega arith)
        ((refl, (omega arith, (omega arith, tt)), two_IsBlock), tt) (omega arith, tt) (omega arith)
        (rest (4 ∷ []) [] one_block one_IsBlock) (omega arith) (omega arith)
        (omega arith, (omega arith, tt)) (tt, (tt, tt)) (omega arith) offset_index_made
        (omega arith) in
    let valid : check_positions r.total_items two_positions ≡ ok tt =
      ap (λ t. check_positions t two_positions) v.total in
    let (batches, cut, good, calls) =
      batches_lem storing storing-IsLawful r (two_items ++ one_item)
        ((two_items, two_block) ∷ ((one_item, one_block) ∷ [])) v 2 two_positions valid in
    (r, v, valid, batches, cut)

reach-IsFinished_example :
    (t : Reading) × Reach storing two_batches.0 two_positions two_batches.3 willing
      (all_idle 2 two_batches.3)
      t
    × IsFinished t
reach-IsFinished_example =
    reach-IsFinished storing storing-IsLawful two_batches.0 (two_items ++ one_item)
      ((two_items, two_block) ∷ ((one_item, one_block) ∷ [])) two_batches.1 2 (omega arith)
      two_positions two_batches.2 two_batches.3 two_batches.4 willing (λ idx it. refl)
      (all_idle 2 two_batches.3) start

finished_run :
    (t : Reading) × Reach storing two_batches.0 two_positions two_batches.3 willing
      (all_idle 2 two_batches.3)
      t
    × IsFinished t
finished_run =
    reach-IsFinished storing storing-IsLawful two_batches.0 (two_items ++ one_item)
      ((two_items, two_block) ∷ ((one_item, one_block) ∷ [])) two_batches.1 2 (omega arith)
      two_positions two_batches.2 two_batches.3 two_batches.4 willing (λ idx it. refl)
      (all_idle 2 two_batches.3) start

-- A run has called `fn` with both items, in one order or the other.
reach-calls_of_example :
    (finished_run.0.first_err ≡ none) × Perm finished_run.0.calls ((0, 1 ∷ []) ∷ ((1, 4 ∷ []) ∷ []))
unfolding calls_of
reach-calls_of_example =
    reach-calls_of storing storing-IsLawful two_batches.0 (two_items ++ one_item)
      ((two_items, two_block) ∷ ((one_item, one_block) ∷ [])) two_batches.1 2 (omega arith)
      two_positions two_batches.2 two_batches.3 two_batches.4 willing (λ idx it. refl)
      finished_run.0 finished_run.1 finished_run.2
