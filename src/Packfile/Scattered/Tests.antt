-- ===== src/Packfile/Scattered/Tests.antt =====
-- packfile/reader.go, ReadItems: the batches on a file of two records, and two workers that both fail.
use event_analysis.Prelude.{
  ℕ, zero, suc, ◌+◌, ◌*◌, ◌≤◌, ◌<◌, Option, none, some, ◌≡◌, refl, arith, min, List, [], ◌∷◌,
  replicate, ok, false,
}
use event_analysis.Prelude.Slices.{index, slice}
use event_analysis.Packfile.{Error, raw}
use event_analysis.Packfile.Reader.{Reader}
use event_analysis.Packfile.Scattered.{
  IoBatch, batches_of, cut_batches, record_bytes, joins, joined, fresh, batch_of,
}
use event_analysis.Packfile.Decoder.{
  Decoder, item, decode, read_payload, read_sizes, items_in_record, prefix_sums,
}
use event_analysis.Packfile.Range.{get_decoder}
use event_analysis.Packfile.Tests.{storing}
use event_analysis.Packfile.Scattered.{decoder_of, decode_record}
use event_analysis.Packfile.Scattered.Workers.{
  Round, Reading, Reach, start, later, take_batch, call_failed, all_idle, open_round, read_next,
}
use event_analysis.Packfile.Scattered.Batches.{Covers, batches_of-Covers}

-- Records of 5 and 4 bytes, with two items each.
abbrev four_items : Reader
four_items = record {
  file = replicate 9 0;
  trailer = record {
    version = 3;
    record_count = 2;
    total_items = 4;
    items_per_record = 2;
    index_size = 0;
    app_data_size = 0;
    content_hash = [];
    index_for_group_size = 128;
    format = raw;
    has_content_hash = false;
    checksum = 0;
  };
  offsets = 0 ∷ (5 ∷ (9 ∷ []));
  app_data = [];
  total_items = 4;
  items_per_record = 2;
}

at_offsets : (j : ℕ) → j ≤ 2 → index {E = Error} four_items.offsets j ≡ ok (min (j * 5) 9)
unfolding index
at_offsets zero h = refl
at_offsets (suc zero) h = refl
at_offsets (suc (suc zero)) h = refl
at_offsets (suc (suc (suc j))) h = absurd (omega (arith, h))

batches_of-Covers_example :
    (batches : List IoBatch) × (batches_of four_items 1 (1 ∷ (2 ∷ (3 ∷ []))) ≡ ok batches)
    × Covers 2 (λ j. min (j * 5) 9) 2 0 batches (1 ∷ (2 ∷ (3 ∷ [])))
batches_of-Covers_example =
    batches_of-Covers four_items 1 (λ j. min (j * 5) 9) 2 at_offsets (λ i j h. omega (arith, h))
      (1 ∷ (2 ∷ (3 ∷ []))) (omega arith, (omega arith, (omega arith, tt)))

-- One reader takes the records in one read.
one_read :
    batches_of four_items 1 (1 ∷ (2 ∷ (3 ∷ [])))
    ≡ ok (record { idx_start = 0; idx_end = 3; first_record = 0; last_record = 1 } ∷ [])
unfolding batches_of cut_batches record_bytes joins joined fresh batch_of index
one_read = refl

-- Two records of one item each, and a callback that fails.
abbrev two_records : Reader
two_records = record four_items {
  file = 4 ∷ (5 ∷ []);
  offsets = 0 ∷ (1 ∷ (2 ∷ []));
  total_items = 2;
  items_per_record = 1;
}

abbrev two_batches : List IoBatch
two_batches =
    record { idx_start = 0; idx_end = 1; first_record = 0; last_record = 0 }
    ∷ (record { idx_start = 1; idx_end = 2; first_record = 1; last_record = 1 } ∷ [])

abbrev unwilling : ℕ → List ℕ → Option ℕ
unwilling idx it = some (7 + idx)

-- A round of a worker, and what is left of it behind the call.
abbrev round_at : ℕ → Round
round_at i = record {
  read_buf = (4 + i) ∷ [];
  read_start = i;
  prev = none;
  idx = i;
  positions = i ∷ [];
}

abbrev decoder_at : ℕ → Decoder
decoder_at i = record (get_decoder two_records) {
  decompressed = (4 + i) ∷ [];
  sizes = 1 ∷ [];
  offsets = 0 ∷ (1 ∷ []);
}

abbrev round_behind : ℕ → Round
round_behind i = record (round_at i) { prev = some (i, decoder_at i); idx = i + 1; positions = [] }

reads :
    (i : ℕ)
    → i < 2
    → read_next storing two_records (round_at i) i [] ≡ ok ((i, (4 + i) ∷ []), round_behind i)
unfolding read_next decoder_of decode_record index slice item decode read_payload read_sizes
    items_in_record prefix_sums
reads zero h = refl
reads (suc zero) h = refl
reads (suc (suc i)) h = absurd (omega (arith, h))

abbrev both_busy :
    (s : Reading) × Reach storing two_records
      (0 ∷ (1 ∷ []))
      two_batches
      unwilling
      (all_idle 2 two_batches)
      s
both_busy = (
  _,
  later
      (later start (
        take_batch 1 (record { idx_start = 0; idx_end = 1; first_record = 0; last_record = 0 })
          (round_at 0) refl refl refl (unfold open_round index slice in refl)))
      (take_batch 0 (record { idx_start = 1; idx_end = 2; first_record = 1; last_record = 1 })
        (round_at 1) refl refl refl (unfold open_round index slice in refl)),
)

-- The second worker's call fails.
abbrev one_failed :
    (s : Reading) × Reach storing two_records
      (0 ∷ (1 ∷ []))
      two_batches
      unwilling
      (all_idle 2 two_batches)
      s
one_failed = (
  _,
  later both_busy.1 (
      call_failed [] (round_at 1) (round_behind 1) (round_at 0 ∷ []) 1 [] (1, 5 ∷ []) 8 refl refl
        (reads 1 (omega arith)) refl),
)

-- Then that of the first, whose error is not kept.
abbrev both_failed :
    (t : Reading) × Reach storing two_records (0 ∷ (1 ∷ [])) two_batches unwilling one_failed.0 t
both_failed = (
  _,
  later start (
      call_failed [] (round_at 0) (round_behind 0) [] 0 [] (0, 4 ∷ []) 7 refl refl
        (reads 0 (omega arith)) refl),
)
